-- ===== src/Sessions/Spent.antt =====
-- Hashes whose stored tokens are all revoked, and the writes of the table.
use discord_bot_backend.Prelude.{
  ℕ, String, none, some, ◌≡◌, ◌≢◌, refl, ◌==◌, arith, eq_iff, eq_refl, ap, Option-cases, inl, inr,
  if◌then◌else◌,
}
use discord_bot_backend.Orm.{Orm, updated}
use discord_bot_backend.Sessions.{RefreshToken, token_id, find_token, issue, revoke, revoke_all}

module _ (orm : Orm) where
  abbrev pub Spent : String → orm.Table RefreshToken → Type 0
  Spent hash t =
      (r : RefreshToken)
      → orm.get token_id r.id t ≡ some r
      → r.token_hash ≡ hash
      → r.revoked_at ≢ none

  abbrev pub HasUniqueHashes : orm.Table RefreshToken → Type 0
  HasUniqueHashes t =
      (a b : RefreshToken)
      → orm.get token_id a.id t ≡ some a
      → orm.get token_id b.id t ≡ some b
      → a.token_hash ≡ b.token_hash
      → a.id ≡ b.id

  pub find_token-eq-some :
      (hash : String) (t : orm.Table RefreshToken) (r : RefreshToken)
      → find_token orm hash t ≡ some r
      → (orm.get token_id r.id t ≡ some r) × (r.token_hash ≡ hash)
  unfolding find_token
  find_token-eq-some hash t r h =
      ground (arith, orm.find_one-eq-some token_id _ t r h, eq_iff r.token_hash hash)

  pub find_token-Spent :
      (hash : String) (t : orm.Table RefreshToken) (r : RefreshToken)
      → Spent hash t
      → find_token orm hash t ≡ some r
      → r.revoked_at ≢ none
  find_token-Spent hash t r spent h =
      let (stored, same) = find_token-eq-some hash t r h in spent r stored same

  pub issue-Spent :
      (hash user hash' : String) (e c : ℕ) (t : orm.Table RefreshToken)
      → Spent hash t
      → hash' ≢ hash
      → Spent hash (issue orm user hash' e c t)
  unfolding issue
  issue-Spent hash user hash' e c t spent fresh r g same = ground (
    arith,
    g,
    spent r,
    fresh,
    eq_iff (orm.new_key token_id t) r.id,
    orm.get-save token_id r.id
        (record {
          id = orm.new_key token_id t;
          user_id = user;
          token_hash = hash';
          expires_at = e;
          revoked_at = none;
          created_at = c;
        })
        t,
  )

  pub revoke-Spent :
      (hash : String) (now : ℕ) (q : RefreshToken) (t : orm.Table RefreshToken)
      → Spent hash t
      → Spent hash (revoke orm now q t)
  unfolding revoke
  revoke-Spent hash now q t spent r g same = ground (
    arith,
    g,
    spent r,
    eq_iff q.id r.id,
    orm.get-save token_id r.id (record q { revoked_at = some now }) t,
  )

  pub revoke_all-get :
      (user k : String) (now : ℕ) (t : orm.Table RefreshToken)
      → orm.get token_id k (revoke_all orm user now t)
        ≡ updated
            (λ r. r.user_id == user)
            (λ r. record r { revoked_at = some now })
            (orm.get token_id k t)
  unfolding revoke_all
  revoke_all-get user k now t = orm.get-update token_id _ _ k t (λ r. refl)

  pub revoke_all-Spent :
      (hash user : String) (now : ℕ) (t : orm.Table RefreshToken)
      → Spent hash t
      → Spent hash (revoke_all orm user now t)
  revoke_all-Spent hash user now t spent r g same = elim (Option-cases (orm.get token_id r.id t)) [
    | inl e ↦ ground (arith, g, e, revoke_all-get user r.id now t)
    | inr (q, e) ↦
        ground
          (arith, g, e, revoke_all-get user r.id now t, spent q, orm.get-key token_id r.id t q e)
  ]

  -- After a revocation of everything of a user, each stored token of that user is revoked.
  pub revoke_all-revoked :
      (user : String) (now : ℕ) (t : orm.Table RefreshToken) (k : String) (r : RefreshToken)
      → orm.get token_id k (revoke_all orm user now t) ≡ some r
      → r.user_id ≡ user
      → r.revoked_at ≡ some now
  revoke_all-revoked user now t k r g same = elim (Option-cases (orm.get token_id k t)) [
    | inl e ↦ ground (arith, g, e, revoke_all-get user k now t)
    | inr (q, e) ↦ ground (arith, g, e, revoke_all-get user k now t, eq_iff q.user_id user)
  ]

  pub revoke-spends :
      (now : ℕ) (q : RefreshToken) (t : orm.Table RefreshToken)
      → HasUniqueHashes t
      → orm.get token_id q.id t ≡ some q
      → Spent q.token_hash (revoke orm now q t)
  unfolding revoke
  revoke-spends now q t unique stored r g same = ground (
    arith,
    g,
    stored,
    unique q r,
    eq_iff q.id r.id,
    orm.get-save token_id r.id (record q { revoked_at = some now }) t,
  )

  pub found_row :
      (hash : String) (t : orm.Table RefreshToken) (r : RefreshToken)
      → orm.get token_id r.id t ≡ some r
      → r.token_hash ≡ hash
      → find_token orm hash t ≡ none
      → ⊥
  unfolding find_token
  found_row hash t r stored same e =
      ground (arith, orm.find_one-eq-none token_id _ t r.id r e stored, eq_iff r.token_hash hash)

  -- The rows after a rotation.
  pub rotated-get :
      (now e c : ℕ) (user hash' : String) (q : RefreshToken) (t : orm.Table RefreshToken)
      (k : String)
      → let old = revoke orm now q t in
        orm.get token_id k (issue orm user hash' e c old) ≡ (
          if orm.new_key token_id old == k
          then some (record {
            id = orm.new_key token_id old;
            user_id = user;
            token_hash = hash';
            expires_at = e;
            revoked_at = none;
            created_at = c;
          })
          else if q.id == k
          then some (record q { revoked_at = some now })
          else orm.get token_id k t)
  unfolding issue revoke
  rotated-get now e c user hash' q t k =
      let old = orm.save token_id (record q { revoked_at = some now }) t in
      ground (
        arith,
        orm.get-save token_id k
            (record {
              id = orm.new_key token_id old;
              user_id = user;
              token_hash = hash';
              expires_at = e;
              revoked_at = none;
              created_at = c;
            })
            old,
        orm.get-save token_id k (record q { revoked_at = some now }) t,
      )

  -- The key of the new row is not that of the revoked one.
  pub rotated-new_key :
      (now : ℕ) (q : RefreshToken) (t : orm.Table RefreshToken)
      → orm.new_key token_id (revoke orm now q t) ≢ q.id
  unfolding revoke
  rotated-new_key now q t e =
      let old = orm.save token_id (record q { revoked_at = some now }) t in
      ground (
        arith,
        ap (λ k. orm.get token_id k old) e,
        orm.get-new_key token_id old,
        orm.get-save token_id q.id (record q { revoked_at = some now }) t,
        eq_refl q.id,
      )

  -- A stored token that is the only one of its hash is the one that is found.
  pub find_token_of_unique :
      (hash : String) (t : orm.Table RefreshToken) (r : RefreshToken)
      → orm.get token_id r.id t ≡ some r
      → r.token_hash ≡ hash
      → ((q : RefreshToken) → orm.get token_id q.id t ≡ some q → q.token_hash ≡ hash → q.id ≡ r.id)
      → find_token orm hash t ≡ some r
  find_token_of_unique hash t r stored same only = elim (Option-cases (find_token orm hash t)) [
    | inl e ↦ absurd (found_row hash t r stored same e)
    | inr (q, e) ↦
        let (kept, alike) = find_token-eq-some hash t q e in
        let one = ap (λ k. orm.get token_id k t) (only q kept alike) in
        ground (arith, e, kept, one, stored)
  ]
