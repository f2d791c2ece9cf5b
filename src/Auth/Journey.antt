-- ===== src/Auth/Journey.antt =====
-- `register`, `login` and the check of the access token, one after the other.
use smartcourse_core.Base.{
  List, String, [], any, arith, eq_iff, false, filter, if◌then◌else◌, ltb, none, refl, some, ℕ, ◌*◌,
  ◌++◌, ◌+◌, ◌/◌, ◌<◌, ◌==◌, ◌||◌, ◌∷◌, ◌≡◌, ◌≤◌, nat_eq, string_eq,
}
use smartcourse_core.Base.Keys.{throttle-login}
use smartcourse_core.Platform.{Platform}
use smartcourse_core.Platform.Redis.{second, live}
use smartcourse_core.Platform.Crypto.{rsa}
use smartcourse_core.Config.{SecuritySettings}
use smartcourse_core.Core.Security.{access_token_denylist_key}
use smartcourse_core.Core.Dependencies.{get_current_user}
use smartcourse_core.Core.Access.{refusal, token_admits_its_user}
use smartcourse_core.Users.Model.{User, UserRole, role_value}
use smartcourse_core.Users.Lookups.{users_with}
use smartcourse_core.Auth.Service.{failed_login_key, register, login, logging_sender}
use smartcourse_core.Auth.Login.{failures}
use smartcourse_core.Auth.Refresh.Rotation.{IsNew}
use smartcourse_core.Auth.Registration.{attempts, new_user, register_made}
use smartcourse_core.Auth.Success.{first_row, first_pair, login_succeeds}
use smartcourse_core.Effects.{World, ok, err}

filter-snoc :
    (email : String) (l : List User) (u : User)
    → filter (λ v. v.email == email) l ≡ []
    → u.email ≡ email
    → filter (λ v. v.email == email) (l ++ u ∷ []) ≡ u ∷ []
filter-snoc email [] u none_there same = ground (arith, eq_iff u.email email)
filter-snoc email (v ∷ l) u none_there same = ground (arith, filter-snoc email l u)

module _ {P : Platform} (email password full_name : String) (role : UserRole) (client_ip : String)
    (settings : SecuritySettings) (w : World P) (n : ℕ) where
  -- The world after the registration.
  abbrev pub joined : World P
  joined = (register email password full_name role client_ip settings logging_sender w).1

  abbrev pub joiner : User
  joiner = new_user email password full_name role client_ip settings w n

  -- A new account that registers can log in with its password right away, and its access token
  -- admits it, with its role, to every request until it expires, provided that the key loads, the
  -- random values are new, the address is not locked out and the token is not on the denylist.
  pub registered_logs_in :
      (m : ℕ) (k : P.Private) (later : World P)
      → attempts email password full_name role client_ip settings w n ≡ some n
      → n < settings.register_throttle_per_hour
      → users_with P email w ≡ []
      → any (λ v. v.id == joiner.id || v.email == email) (P.view w.session).working.users ≡ false
      → failures email password w ≡ some m
      → m < settings.failed_login_max_attempts
      → P.private_pem settings.jwt_private_key_path ≡ rsa k
      → P.public_pem settings.jwt_public_key_path ≡ rsa (P.public_of k)
      → IsNew (first_row email password settings joined joiner k) (P.view joined.session).working
      → joined.clock ≤ later.clock
      → live later.clock (
          P.entry later.conn
            (access_token_denylist_key (P.str_uuid (P.uuid4 (joined.draws + 1 + 1 + 1)))))
        ≡ none
      → let pair = first_pair email password settings joined joiner k in
        ((register email password full_name role client_ip settings logging_sender w).0 ≡ ok joiner)
        × ((login email password settings joined).0 ≡ ok (joiner, pair))
        × (get_current_user (some pair.access_token) settings later ≡ (
          (if ltb
                (later.clock / second)
                (joined.clock / second + settings.access_token_expires_minutes * 60)
              then ok (record {
                id = joiner.id;
                role = role_value role;
                jti = P.str_uuid (P.uuid4 (joined.draws + 1 + 1 + 1));
                expires_at = joined.clock / second + settings.access_token_expires_minutes * 60;
              })
              else err (refusal "Invalid or expired token")),
          later,
        ))
  registered_logs_in m k later counted few free new fails some_left private public fresh after
        undenied =
      let (made, seen, clock, keys) =
        register_made email password full_name role client_ip settings w n counted few free new in
      let same_counter = keys (failed_login_key email) (throttle-login client_ip email) in
      let counter : failures email password joined ≡ some m = rw (clock, same_counter) fails in
      let there : users_with P email joined ≡ joiner ∷ [] =
        rw seen (filter-snoc email (P.view w.session).working.users joiner free refl) in
      let logged =
        login_succeeds email password settings joined joiner k m counter some_left there refl
          (P.verify-hash w.draws password) private fresh in
      let admitted =
        token_admits_its_user joiner.id (role_value role) settings
          (record joined { draws = joined.draws + 1 + 1 + 1 }) k later private public after
          undenied in
      (made, logged.0, admitted.1)
