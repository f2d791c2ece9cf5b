-- ===== src/Auth/Logout.antt =====
-- `logout` of src/modules/auth/service.py.
use smartcourse_core.Base.{
  ==-refl, List, String, [], ap, arith, if◌then◌else◌, inl, inr, length, le→ltb, lt-or-≤, ltb,
  lt→ltb, max, none, refl, some, true, ℕ, ◌*◌, ◌+◌, ◌-◌, ◌/◌, ◌<◌, ◌==◌, ◌∙◌, ◌∷◌, ◌≡◌, ◌≤◌, nat_eq,
  string_eq,
}
use smartcourse_core.Platform.{Platform}
use smartcourse_core.Platform.Redis.{text, second}
use smartcourse_core.Platform.Orm.{with_tokens}
use smartcourse_core.Platform.Crypto.{Claims, rsa}
use smartcourse_core.Config.{SecuritySettings}
use smartcourse_core.Core.Security.{access_token_denylist_key}
use smartcourse_core.Core.Dependencies.{get_current_user}
use smartcourse_core.Core.Access.{refusal, signed, expired_refused, denied_refused}
use smartcourse_core.Auth.Model.{RefreshToken}
use smartcourse_core.Auth.Service.{in_scope, logout, revoke_family_of}
use smartcourse_core.Auth.Revoke.{
  DistinctIds, revoke_where, after_revoke, view-after_revoke, revoke_family,
}
use smartcourse_core.Auth.Refresh.Replay.{rows_of}
use smartcourse_core.Effects.{
  World, M, now, redis_write, scalar_one_or_none, bind-ok, ok, err, ◌>>=◌, ◌>>◌,
}

-- The time to live of the denylist entry reaches to the end of the token.
still_denied :
    (exp now later : ℕ)
    → now ≤ later
    → later / second < exp
    → later < now + max (exp - now / second) 1 * second
still_denied exp now later after valid = omega arith

module _ {P : Platform} (raw jti : String) (exp : ℕ) (w : World P) where
  -- The last statements of `logout`.
  abbrev deny_token : M P (Unit {0})
  deny_token = do
    t ← now
    redis_write (λ u. P.set u (access_token_denylist_key jti) (text "1") (max (exp - t / second) 1))

  abbrev denied_conn : P.Conn
  denied_conn =
      P.set w.clock (access_token_denylist_key jti) (text "1") (max (exp - w.clock / second) 1)
        w.conn

  logout-rows :
      (rows : List RefreshToken)
      → rows_of P raw w ≡ rows
      → logout raw jti exp w ≡ (do o ← scalar_one_or_none rows; revoke_family_of o; deny_token) w
  unfolding logout
  logout-rows rows found =
      ap (λ l. (do o ← scalar_one_or_none l; revoke_family_of o; deny_token) w)
        (P.select_tokens_lem (λ r. r.token_hash == P.sha256_hex raw) w.session ∙ found)

  logout_known :
      (row : RefreshToken)
      → rows_of P raw w ≡ row ∷ []
      → logout raw jti exp w ≡ (
        ok tt,
        record w { session = after_revoke (some row.family_id) none w; conn = denied_conn },
      )
  logout_known row found =
      logout-rows (row ∷ []) found
      ∙ bind-ok (revoke_family_of (some row)) (λ _. deny_token) w (revoke_family row.family_id w)

  -- A logout with a refresh token of at most one row is answered, and the id of the access token is
  -- on the denylist then.
  logout_answered :
      (rows : List RefreshToken)
      → rows_of P raw w ≡ rows
      → length rows ≤ 1
      → ((logout raw jti exp w).0 ≡ ok tt) × ((logout raw jti exp w).1.conn ≡ denied_conn)
  logout_answered [] found few = rw (logout-rows [] found) (refl, refl)
  logout_answered (row ∷ []) found few = rw (logout_known row found) (refl, refl)
  logout_answered (x ∷ y ∷ rows) found few = absurd (omega arith)

module _ {P : Platform} (raw jti : String) (exp : ℕ) (w : World P) (row : RefreshToken) where
  -- Logging out with a refresh token revokes every active token of its family, and no other row.
  pub logout_revokes_family :
      rows_of P raw w ≡ row ∷ []
      → DistinctIds (P.view w.session).working.refresh_tokens
      → ((logout raw jti exp w).0 ≡ ok tt)
        × (P.view (logout raw jti exp w).1.session
            ≡ with_tokens (P.view w.session) (
                revoke_where
                  (in_scope (some row.family_id) none)
                  w.clock
                  (P.view w.session).working.refresh_tokens))
  logout_revokes_family found distinct =
      rw (logout_known raw jti exp w row found)
        (refl, view-after_revoke (some row.family_id) none w distinct)

module _ {P : Platform} (raw : String) (settings : SecuritySettings) (c : Claims) (k : P.Private)
    (w later : World P) where
  -- A logout is answered, whether or not its refresh token is known, as long as that is not of
  -- several rows. At any later time the access token is refused, if its own entry in Redis is left
  -- as the logout left it: it is on the denylist until it expires, and expired after that.
  pub logged_out_stays_out :
      length (rows_of P raw w) ≤ 1
      → P.public_pem settings.jwt_public_key_path ≡ rsa (P.public_of k)
      → c.type ≡ "access"
      → c.iat ≤ w.clock / second
      → w.clock ≤ later.clock
      → P.entry later.conn (access_token_denylist_key c.jti)
        ≡ P.entry (logout raw c.jti c.exp w).1.conn (access_token_denylist_key c.jti)
      → ((logout raw c.jti c.exp w).0 ≡ ok tt)
        × (get_current_user (some (signed settings c k later)) settings later ≡ (
          err (
              refusal (
                if ltb (later.clock / second) c.exp
                then "Token has been revoked"
                else "Invalid or expired token")),
          later,
        ))
  logged_out_stays_out few key access issued after same =
      let (answered, denying) = logout_answered raw c.jti c.exp w (rows_of P raw w) refl few in
      elim (lt-or-≤ (later.clock / second) c.exp) [
        | inl valid ↦
            let deny = access_token_denylist_key c.jti in
            let alive =
              lt→ltb later.clock (w.clock + max (c.exp - w.clock / second) 1 * second)
                (still_denied c.exp w.clock later.clock after valid) in
            let denied : P.exists later.clock deny later.conn ≡ true =
              rw (P.exists_lem, same, denying, P.entry-set, ==-refl deny, alive) refl in
            let before : c.iat ≤ later.clock / second = omega arith in
            rw (lt→ltb (later.clock / second) c.exp valid)
              (answered, denied_refused settings c k later key access before valid denied)
        | inr late ↦
            rw (le→ltb (later.clock / second) c.exp late)
              (answered, expired_refused settings c k later key late)
      ]
