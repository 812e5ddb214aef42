-- ===== src/Auth/Passwords.antt =====
-- Sign-ins with a password, with the second factor after them, and what ends a session.
use mathlib.Core.Path.{fun_ext}
use better_pingvin_share.Prelude.{
  String, Bool, true, false, not, ◌&&◌, ◌||◌, Option, none, some, ◌≡◌, ◌↔◌, inl, inr, arith, refl,
  sym, ◌∙◌, Bool-cases, Option-cases, ltb, truthy, ◌===◌, ===-refl,
}
use better_pingvin_share.Http.{done}
use better_pingvin_share.Prisma.{Prisma}
use better_pingvin_share.Schema.{Db, User}
use better_pingvin_share.Store.First.{first_selected}
use better_pingvin_share.World.{World}
use better_pingvin_share.Users.Rows.{first_user}
use better_pingvin_share.Auth.{Totp, Session, minutes, sign_in_totp}
use better_pingvin_share.Auth.Ldap.{LdapServer}
use better_pingvin_share.Auth.SignIn.{
  SignIn, column_is, Granted, session, login, named_by, password_right, with_right_password,
  generate_token, sign_in,
}
use better_pingvin_share.Auth.Once.{sign_in_totp_iff}
use better_pingvin_share.Auth.Granted.{
  session_of, login_row, with_login, granted_session, granted_login,
}

-- A row that a query by other columns finds is the row of its id.
pub first_user_found :
    {P : Prisma} (p : User → Bool) (db : Db P) (id : String) (u : User)
    → first_user p db ≡ some (id, u)
    → (P.find id db.users ≡ some u) × (p u ≡ true)
first_user_found {P} p db id u first =
    let (there, passes) =
      first_selected p (P.rows db.users) id u (P.rows-DistinctKeys db.users) first in
    (sym (P.lookup-rows id db.users) ∙ there, passes)

named_somehow : (a b : Bool) → (a || b) ≡ true → (not a && not b) ≡ false
named_somehow true b h = refl
named_somehow false true h = refl
named_somehow false false h = cc

nameless : (a b : Bool) → (a || b) ≡ false → (not a && not b) ≡ true
nameless true b h = cc
nameless false true h = cc
nameless false false h = refl

-- Does a request name a user, by the address or by the name?
abbrev pub is_value : Option String → String → Bool
is_value none value = false
is_value (some given) value = value === given

abbrev pub is_named : SignIn → User → Bool
is_named dto u = is_value dto.email u.email || is_value dto.username u.username

same_value : (given : Option String) (value : String) → column_is given value ≡ is_value given value
same_value none value = refl
same_value (some given) value = refl

same_names : (dto : SignIn) (u : User) → named_by dto u ≡ is_named dto u
same_names dto u = rw (same_value dto.email u.email, same_value dto.username u.username) refl

-- The query of the code asks for the users that are named.
same_query : (dto : SignIn) → named_by dto ≡ is_named dto
same_query dto = fun_ext λ u. same_names dto u

right_account :
    (w : World) (password id : String) (u : User)
    → password_right w password u.password ≡ true
    → with_right_password w password (some (id, u)) ≡ some (id, u)
right_account w password id u right = ground arith

wrong_account :
    (w : World) (password id : String) (u : User)
    → password_right w password u.password ≡ false
    → with_right_password w password (some (id, u)) ≡ none
wrong_account w password id u wrong = ground arith

module _ {P : Prisma} (w : World) (server : LdapServer) (dto : SignIn) where
  -- The first user with the address or the name that is given has a password, and its stored hash
  -- verifies the one that is given.
  pub record KnowsPassword (db : Db P) : Type 0 where
    pub named : (truthy dto.email || truthy dto.username) ≡ true
    pub id : String
    pub user : User
    pub first : first_user (is_named dto) db ≡ some (id, user)
    pub hash : String
    pub stored : user.password ≡ some hash
    pub not_empty : (hash === "") ≡ false
    pub verified : w.argon.verify hash dto.password ≡ true

  first_named :
      (db : Db P) (k : KnowsPassword db) → first_user (named_by dto) db ≡ some (k.id, k.user)
  first_named db k = rw (same_query dto) k.first

  right_password :
      (db : Db P) (k : KnowsPassword db) → password_right w dto.password k.user.password ≡ true
  right_password db k = rw (k.stored, k.not_empty, k.verified) refl

  known :
      (db : Db P) (id : String) (u : User)
      → (truthy dto.email || truthy dto.username) ≡ true
      → first_user (named_by dto) db ≡ some (id, u)
      → password_right w dto.password u.password ≡ true
      → KnowsPassword db
  known db id u named first right = elim (Option-cases u.password) [
    | inl none_there ↦ let never = rw none_there at right in absurd (cc)
    | inr (hash, stored) ↦
        let verifies = rw stored at right in
        record {
          named = named;
          id = id;
          user = u;
          first = rw (← same_query dto) first;
          hash = hash;
          stored = stored;
          not_empty = ground (arith, verifies);
          verified = ground (arith, verifies);
        }
  ]

  password_sign_in :
      (db : Db P)
      → w.config.oauth_disable_password ≡ false
      → (k : KnowsPassword db) → sign_in w server dto db ≡ generate_token w k.id k.user none db
  unfolding sign_in
  password_sign_in db enabled k =
      rw
        (
          named_somehow _ _ k.named,
          enabled,
          first_named db k,
          right_account w dto.password k.id k.user (right_password db k),
        )
        refl

  granted :
      (id : String) (u : User) (db : Db P)
      → (g : Granted) × ((generate_token w id u none db).0 ≡ done g)
  granted id u db = elim (Bool-cases u.totp_verified) [
    | inl asked ↦ (login w.fresh_id, rw (granted_login w id u none db (simp asked refl)) refl)
    | inr free ↦
        (session (session_of w id u), rw (granted_session w id u none db (simp free refl)) refl)
  ]

  done-KnowsPassword :
      (db : Db P) (g : Granted)
      → w.config.oauth_disable_password ≡ false
      → w.config.ldap_enabled ≡ false
      → (sign_in w server dto db).0 ≡ done g
      → KnowsPassword db
  unfolding sign_in
  done-KnowsPassword db g enabled off e =
      elim (Bool-cases (truthy dto.email || truthy dto.username)) [
        | inr nobody ↦ let refused = rw (nameless _ _ nobody) at e in absurd (cc)
        | inl named ↦ elim (Option-cases (first_user (named_by dto) db)) [
          | inl unknown ↦
              let refused = rw (named_somehow _ _ named, enabled, unknown, off) at e in absurd (cc)
          | inr ((id, u), first) ↦ elim (Bool-cases (password_right w dto.password u.password)) [
            | inr wrong ↦
                let refused =
                  rw
                    (
                      named_somehow _ _ named,
                      enabled,
                      first,
                      wrong_account w dto.password id u wrong,
                      off,
                    )
                    at e in
                absurd (cc)
            | inl right ↦ known db id u named first right
          ]
        ]
      ]

  -- Where passwords are enabled and the LDAP server is not asked, a sign-in succeeds exactly when an
  -- address or a name is given, and the first user that has the address or the name has a stored hash,
  -- which is not empty and verifies the password that is given.
  pub sign_in_iff :
      (db : Db P)
      → w.config.oauth_disable_password ≡ false
      → w.config.ldap_enabled ≡ false
      → ((g : Granted) × ((sign_in w server dto db).0 ≡ done g)) ↔ KnowsPassword db
  sign_in_iff db enabled off = (
    λ (g, e). done-KnowsPassword db g enabled off e,
    λ k. rw (password_sign_in db enabled k) (granted k.id k.user db),
  )

  -- A user who is asked for a code gets only a login token for the password, and the sessions stay as
  -- they were; with that token and the right code the user is signed in, whenever the code comes
  -- before the token expires.
  pub sign_in_asks_code :
      (later : World) (totp : Totp) (code secret : String) (db : Db P) (k : KnowsPassword db)
      → w.config.oauth_disable_password ≡ false
      → k.user.totp_verified ≡ true
      → k.user.totp_secret ≡ some secret
      → (secret === "") ≡ false
      → totp.check code secret ≡ true
      → ltb (w.moment.add w.now (minutes 5)) later.now ≡ false
      → ((sign_in w server dto db).0 ≡ done (login w.fresh_id))
        × ((sign_in w server dto db).1.refresh_tokens ≡ db.refresh_tokens)
        × ((s : Session) × ((sign_in_totp later totp w.fresh_id code (sign_in w server dto db).1).0
              ≡ done s))
  sign_in_asks_code later totp code secret db k enabled asked enrolled real right in_time =
      rw (password_sign_in db enabled k, granted_login w k.id k.user none db (simp asked refl))
        (
          refl,
          refl,
          (sign_in_totp_iff later totp w.fresh_id code (with_login w k.id db)).1 (record {
            row = login_row w k.id;
            found = ground (
              arith,
              P.find-write w.fresh_id w.fresh_id (login_row w k.id) db.login_tokens,
              ===-refl w.fresh_id,
            );
            unused = refl;
            in_time = in_time;
            user = k.user;
            registered = (first_user_found (is_named dto) db k.id k.user k.first).0;
            secret = secret;
            enrolled = enrolled;
            real = real;
            right = right;
          }),
        )
