-- ===== src/Share/Guard/Views.antt =====
-- What the guards of shares and files change: assigned addresses and the count of views.
use better_pingvin_share.Prelude.{
  ◌+◌, String, true, false, ◌&&◌, ◌||◌, Option, none, some, ◌≡◌, ◌≢◌, inl, inr, arith, eq_iff,
  ===-refl, Option-cases, Bool-cases, truthy,
}
use better_pingvin_share.Http.{Outcome, done, throw, continue}
use better_pingvin_share.Prisma.{Prisma}
use better_pingvin_share.Schema.{Db, Share}
use better_pingvin_share.World.{World}
use better_pingvin_share.Store.{put_share}
use better_pingvin_share.Share.Request.{
  Request, SignedIn, get_share_token_from_request, authenticated_user, user_id, is_admin_user,
}
use better_pingvin_share.Share.Access.{is_share_expired, is_share_removed}
use better_pingvin_share.Share.IpAccess.Laws.{
  OnlyAddresses, OnlyAddresses-refl, OnlyAddresses-found, without_addresses,
  assert_share_ip_access-OnlyAddresses,
}
use better_pingvin_share.Share.Token.{accepts_token, verify_found}
use better_pingvin_share.Share.Guard.{
  enter, enter_openly, enter_with_token, ask_password, admit, share_security_guard, is_private_for,
  password_of, views_exceeded, increase_view_count, count_view, enter_file, file_security_guard,
}

module _ {P : Prisma} where
  -- What a guard may have done to the shares: it gave out places to addresses at most, or it also
  -- counted one view of a share whose views were not used up.
  pub data Visit (id : String) (a b : Db P) : Type 0 where
    uncounted : OnlyAddresses id a b → Visit id a b
    counted :
        (s t : Share)
        → P.find id a.shares ≡ some s
        → P.find id b.shares ≡ some t
        → views_exceeded s ≡ false
        → without_addresses t ≡ without_addresses (record s { views = s.views + 1 })
        → ((j : String) → id ≢ j → P.find j b.shares ≡ P.find j a.shares)
        → Visit id a b

  pub count_view_found :
      (id : String) (s t : Share) (b : Db P)
      → P.find id b.shares ≡ some t
      → count_view id s b ≡ (done true, put_share id (record t { views = s.views + 1 }) b)
  unfolding count_view increase_view_count
  count_view_found id s t b kept = ground arith

  count_view-Visit :
      (id : String) (s : Share) (a b : Db P)
      → P.find id a.shares ≡ some s
      → views_exceeded s ≡ false
      → OnlyAddresses id a b
      → Visit id a (count_view id s b).1
  count_view-Visit id s a b found room only =
      let (t, kept, same) = OnlyAddresses-found id a b s only found in
      rw (count_view_found id s t b kept) (
        counted s (record t { views = s.views + 1 }) found (simp (P.find-write, ===-refl)) room
          (ground (arith, same))
          λ j h. simp P.find-write (ground (arith, eq_iff id j, only.others j h)))

  then_count-Visit :
      (id : String) (s : Share) (a b : Db P) (r : Outcome Unit)
      → P.find id a.shares ≡ some s
      → views_exceeded s ≡ false
      → OnlyAddresses id a b
      → Visit id a (continue r (λ _. count_view id s) b).1
  then_count-Visit id s a b (done u) found room only = count_view-Visit id s a b found room only
  then_count-Visit id s a b (throw e) found room only = uncounted only

  then-uncounted :
      {A B : Type 0} (id : String) (a b : Db P) (r : Outcome A) (k : Outcome B)
      → OnlyAddresses id a b
      → Visit id a (continue r (λ _ db. (k, db)) b).1
  then-uncounted id a b (done u) k only = uncounted only
  then-uncounted id a b (throw e) k only = uncounted only

module _ {P : Prisma} (w : World) (request : Request) (id : String) where
  enter_openly-Visit :
      (s : Share) (db : Db P)
      → P.find id db.shares ≡ some s
      → Visit id db (enter_openly w request id s db).1
  unfolding enter_openly
  enter_openly-Visit s db found = elim (Bool-cases (views_exceeded s)) [
    | inl full ↦ rw full (uncounted (OnlyAddresses-refl id db))
    | inr room ↦ rw room (
        then_count-Visit id s db _ _ found room
          (assert_share_ip_access-OnlyAddresses w id s.security request true db))
  ]

  ask_password-Visit : (s : Share) (db : Db P) → Visit id db (ask_password w request id s db).1
  unfolding ask_password
  ask_password-Visit s db =
      then-uncounted id db _ _ (throw _)
        (assert_share_ip_access-OnlyAddresses w id s.security request false db)

  enter_with_token-Visit :
      (s : Share) (token : String) (db : Db P)
      → P.find id db.shares ≡ some s
      → Visit id db (enter_with_token w request id s token db).1
  unfolding enter_with_token
  enter_with_token-Visit s token db found =
      rw (verify_found w id s token db found) (elim (Bool-cases (accepts_token w id s token)) [
        | inl valid ↦ rw valid (
            then-uncounted id db _ _ (done true)
              (assert_share_ip_access-OnlyAddresses w id s.security request true db))
        | inr invalid ↦ rw invalid (uncounted (OnlyAddresses-refl id db))
      ])

  enter-Visit :
      (s : Share) (token : Option String) (db : Db P)
      → P.find id db.shares ≡ some s
      → Visit id db (enter w request id s token db).1
  enter-Visit s (some token) db found = enter_with_token-Visit s token db found
  enter-Visit s none db found = elim (Bool-cases (truthy (password_of s.security))) [
    | inl locked ↦ rw locked (ask_password-Visit s db)
    | inr free ↦ rw free (enter_openly-Visit s db found)
  ]

  admit-Visit :
      (s : Share) (user : Option SignedIn) (db : Db P)
      → P.find id db.shares ≡ some s
      → Visit id db (admit w request id s user db).1
  unfolding admit
  admit-Visit s user db found =
      elim (Bool-cases (is_admin_user user && w.config.allow_admin_access_all_shares)) [
        | inl all ↦ rw all (uncounted (OnlyAddresses-refl id db))
        | inr some_only ↦ elim (Bool-cases (is_private_for s (user_id user) db)) [
          | inl private ↦ rw (some_only, private) (uncounted (OnlyAddresses-refl id db))
          | inr public ↦ rw (some_only, public) (enter-Visit s _ db found)
        ]
      ]

  -- Whatever the outcome, ShareSecurityGuard changes nothing of the shares but the assigned
  -- addresses of the share that is asked for, or that and one view more, counted while views were
  -- left.
  pub share_security_guard-Visit :
      (db : Db P) → Visit id db (share_security_guard w request id db).1
  unfolding share_security_guard
  share_security_guard-Visit db = elim (Option-cases (P.find id db.shares)) [
    | inl missing ↦ rw missing (uncounted (OnlyAddresses-refl id db))
    | inr (s, found) ↦ rw found (elim (Bool-cases (is_share_removed (some s))) [
      | inl removed ↦ rw removed (uncounted (OnlyAddresses-refl id db))
      | inr kept ↦ rw kept (elim (Bool-cases (is_share_expired w.now (some s.expiration))) [
        | inl expired ↦ rw expired (uncounted (OnlyAddresses-refl id db))
        | inr live ↦ rw live (admit-Visit s (authenticated_user request db) db found)
      ])
    ])
  ]

  enter_file-Visit :
      (s : Share) (user : Option SignedIn) (db : Db P)
      → P.find id db.shares ≡ some s
      → Visit id db (enter_file w request id s user db).1
  unfolding enter_file
  enter_file-Visit s user db found =
      elim (Bool-cases (w.config.allow_admin_access_all_shares && is_admin_user user)) [
        | inl all ↦ rw all (uncounted (OnlyAddresses-refl id db))
        | inr some_only ↦ rw some_only (elim (Bool-cases (truthy (password_of s.security))) [
          | inl locked ↦ rw locked (uncounted (OnlyAddresses-refl id db))
          | inr free ↦ rw free (elim (Bool-cases (views_exceeded s)) [
            | inl full ↦ rw full (uncounted (OnlyAddresses-refl id db))
            | inr room ↦ rw room (
                then_count-Visit id s db _ _ found room
                  (assert_share_ip_access-OnlyAddresses w id s.security request true db))
          ])
        ])
      ]

  -- Whatever the outcome, FileSecurityGuard changes nothing of the shares but the assigned addresses
  -- of the share that is asked for, or that and one view more, counted while views were left.
  pub file_security_guard-Visit : (db : Db P) → Visit id db (file_security_guard w request id db).1
  unfolding file_security_guard
  file_security_guard-Visit db = elim (Option-cases (get_share_token_from_request request id)) [
    | inr (token, shown) ↦ rw (shown, file_security_guard) (share_security_guard-Visit db)
    | inl unshown ↦
        rw (unshown, file_security_guard)
          (elim (Option-cases (P.find id db.shares)) [
            | inl missing ↦ rw missing (uncounted (OnlyAddresses-refl id db))
            | inr (s, found) ↦
                rw found
                  (elim (Bool-cases
                    (is_share_removed (some s) || is_share_expired w.now (some s.expiration))) [
                      | inl gone ↦ rw gone (uncounted (OnlyAddresses-refl id db))
                      | inr live ↦
                          rw live (enter_file-Visit s (authenticated_user request db) db found)
                    ])
          ])
  ]
