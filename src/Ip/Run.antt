-- ===== src/Ip/Run.antt =====
-- `serializeIpv6` of shareIp.util.ts: the longest run of zero groups is written as "::".
use Prim.Native.Char.{code}
use Prim.Native.String.{[], ◌∷◌}
use better_pingvin_share.Prelude.{
  ℕ, zero, suc, ◌+◌, ◌-◌, ◌/◌, ◌%◌, String, Bool, Option, none, some, List, [], ◌∷◌, ◌++◌, length,
  ltb, ◌==◌, if◌then◌else◌,
}
use better_pingvin_share.Text.{join, digit_text, ◌⧺◌}

-- `toString(16)` of a number below 65536
unfoldable pub hex_text : ℕ → String
hex_text n =
    if ltb n 16
    then digit_text n
    else if ltb n 256
    then digit_text (n / 16) ⧺ digit_text (n % 16)
    else if ltb n 4096
    then digit_text (n / 256) ⧺ digit_text (n / 16 % 16) ⧺ digit_text (n % 16)
    else digit_text (n / 4096)
      ⧺ digit_text (n / 256 % 16)
      ⧺ digit_text (n / 16 % 16)
      ⧺ digit_text (n % 16)

-- The variables of the loop that looks for the longest run; a start of -1 is `none`.
pub record Runs : Type 0 where
  pub best_start : Option ℕ
  pub best_length : ℕ
  pub current_start : Option ℕ
  pub current_length : ℕ

abbrev pub no_runs : Runs
no_runs = record { best_start = none; best_length = 0; current_start = none; current_length = 0 }

abbrev pub or_start : Option ℕ → ℕ → Option ℕ
or_start none i = some i
or_start (some s) i = some s

-- A zero group lengthens the current run.
unfoldable pub extend_run : ℕ → Runs → Runs
extend_run i r = record r {
  current_start = or_start r.current_start i;
  current_length = r.current_length + 1;
}

-- Any other group, and the end of the list, close it.
unfoldable pub close_run : Runs → Runs
close_run r =
    if ltb r.best_length r.current_length
    then record {
      best_start = r.current_start;
      best_length = r.current_length;
      current_start = none;
      current_length = 0;
    }
    else record r { current_start = none; current_length = 0 }

unfoldable pub scan_runs : ℕ → List ℕ → Runs → Runs
unfolding extend_run close_run
scan_runs i [] r = close_run r
scan_runs i (g ∷ gs) r = scan_runs (i + 1) gs (if g == 0 then extend_run i r else close_run r)

-- The start of the run that is abbreviated, and its length.
unfoldable pub best_run : List ℕ → Option ℕ × ℕ
unfolding scan_runs
best_run groups =
    let r = scan_runs 0 groups no_runs in
    (if ltb r.best_length 2 then none else r.best_start, r.best_length)

abbrev pub starts_at : Option ℕ → ℕ → Bool
starts_at start i = elim start [ none ↦ ltb 0 0 | some s ↦ i == s ]

-- The second loop, over the groups from index `i`; `skip` groups of the run are still to be passed.
unfoldable pub emit_parts : Option ℕ → ℕ → ℕ → ℕ → ℕ → List ℕ → List String
emit_parts start len total skip i [] = []
emit_parts start len total (suc skip) i (g ∷ gs) = emit_parts start len total skip (i + 1) gs
emit_parts start len total zero i (g ∷ gs) =
    let jump = emit_parts start len total (len - 1) (i + 1) gs in
    let step = emit_parts start len total zero (i + 1) gs in
    if starts_at start i
    then (if i == 0 then "" ∷ "" ∷ [] else "" ∷ [])
      ++ ((if i + len == total then "" ∷ [] else []) ++ jump)
    else hex_text g ∷ step

-- `replace(/:{3,}/g, "::")`, with the colons read so far
abbrev pub colons : ℕ → String
colons zero = ""
colons (suc zero) = ":"
colons (suc (suc n)) = "::"

unfoldable pub collapse : ℕ → String → String
collapse run [] = colons run
collapse run (c ∷ s) =
    let longer = collapse (run + 1) s in
    let closed = collapse 0 s in if code c == b':' then longer else colons run ⧺ (c ∷ closed)

unfoldable pub serialize_ipv6 : List ℕ → String
unfolding best_run emit_parts collapse join hex_text
serialize_ipv6 groups =
    let (start, len) = best_run groups in
    collapse 0 (join ":" (emit_parts start len (length groups) 0 0 groups))
