-- ===== src/Ip/Tests.antt =====
-- Runs of the address functions, and the theorems about them at concrete texts.
use better_pingvin_share.Prelude.{ℕ, String, some, ◌≡◌, refl, if◌then◌else◌}
use better_pingvin_share.Text.{has_char}
use better_pingvin_share.Ip.Address.{normalize_ip_address}

-- A stand-in for the host's `isIP`.
abbrev host_family : String → ℕ
unfolding has_char
host_family s = if has_char b':' s then 6 else 4

forwarded_test : normalize_ip_address host_family (some " 010.2.3.4:80, 1.1.1.1") ≡ some "10.2.3.4"
unfolding normalize_ip_address has_char
forwarded_test = refl

compressed_test :
    normalize_ip_address host_family (some "[2001:DB8:0:0:1::ABCD%1]:443")
    ≡ some "2001:db8::1:0:0:abcd"
unfolding normalize_ip_address has_char
compressed_test = refl

mapped_test : normalize_ip_address host_family (some "::FFFF:1.2.3.4") ≡ some "::ffff:102:304"
unfolding normalize_ip_address has_char
mapped_test = refl

unspecified_test : normalize_ip_address host_family (some "0:0:0:0:0:0:0:0") ≡ some "::"
unfolding normalize_ip_address has_char
unspecified_test = refl
