-- ===== src/Tests/SessionWitnesses.antt =====
-- The theorems on refresh tokens and access tokens at the small database.
use smartcourse_core.Base.{[], arith, none, refl, some, ◌*◌, ◌+◌, ◌∷◌, ◌≡◌}
use smartcourse_core.Platform.Redis.{text, second}
use smartcourse_core.Platform.Crypto.{Claims}
use smartcourse_core.Config.{default_security}
use smartcourse_core.Core.Security.{create_access_token}
use smartcourse_core.Core.Dependencies.{get_current_user}
use smartcourse_core.Core.Access.{refusal, signed, claims, token_admits_its_user}
use smartcourse_core.Auth.Model.{RefreshToken}
use smartcourse_core.Auth.Service.{revoke_active_tokens, revoked, refresh_tokens, logout}
use smartcourse_core.Auth.Revoke.{revoke_active_tokens_lem}
use smartcourse_core.Auth.Refresh.Replay.{unauthorized_error, replay_burns_family}
use smartcourse_core.Auth.Refresh.Rotation.{successor, rotated_pair, refresh_rotates}
use smartcourse_core.Auth.Logout.{logged_out_stays_out, logout_revokes_family}
use smartcourse_core.Db.Postgres.{in_transaction}
use smartcourse_core.Effects.{World, ok, err}
use smartcourse_core.Tests.Memory.{memory}
use smartcourse_core.Tests.Worlds.{ann, rotated_away, current, of_bob, tables, world, start_time}

replay_burns_family_example :
    ((in_transaction (refresh_tokens "zero" default_security) world).0
      ≡ err (unauthorized_error "Refresh token has been revoked."))
    × ((in_transaction (refresh_tokens "zero" default_security) world).1.session ≡ record {
      working = record tables {
        refresh_tokens = rotated_away ∷ revoked start_time current ∷ of_bob ∷ [];
      };
      stored = record tables {
        refresh_tokens = rotated_away ∷ revoked start_time current ∷ of_bob ∷ [];
      };
    })
replay_burns_family_example =
    replay_burns_family "zero" default_security world rotated_away 900 refl refl
      (refl, (refl, (refl, tt)))

abbrev fresh_row : RefreshToken
fresh_row = successor "one" default_security world current ann tt

refresh_rotates_example :
    ((in_transaction (refresh_tokens "one" default_security) world).0
      ≡ ok (ann, rotated_pair "one" default_security world current ann tt))
    × ((in_transaction (refresh_tokens "one" default_security) world).1.session ≡ record {
      working = record tables {
        refresh_tokens = rotated_away ∷ revoked start_time current ∷ of_bob ∷ fresh_row ∷ [];
      };
      stored = record tables {
        refresh_tokens = rotated_away ∷ revoked start_time current ∷ of_bob ∷ fresh_row ∷ [];
      };
    })
refresh_rotates_example =
    refresh_rotates "one" default_security world current ann tt refl refl (omega arith) refl refl
      refl (refl, (refl, (refl, tt))) refl

revoke_active_tokens_lem_example :
    let (r, by_family) = revoke_active_tokens {P = memory} (some 7) none world in
    let (q, by_user) = revoke_active_tokens {P = memory} none (some 2) world in
    (r ≡ ok tt)
    × (by_family.session ≡ record {
      working = record tables {
        refresh_tokens = rotated_away ∷ revoked start_time current ∷ of_bob ∷ [];
      };
      stored = tables;
    })
    × (q ≡ ok tt)
    × (by_user.session ≡ record {
      working = record tables {
        refresh_tokens = rotated_away ∷ current ∷ revoked start_time of_bob ∷ [];
      };
      stored = tables;
    })
revoke_active_tokens_lem_example =
    revoke_active_tokens_lem {P = memory} 7 2 world (refl, (refl, (refl, tt)))

-- The claims of Ann's access token, which ends 40 seconds after the start.
abbrev of_ann : Claims
of_ann = record {
  sub = "1";
  role = some "student";
  type = "access";
  jti = "j";
  iat = 990;
  exp = 1040;
}

abbrev logged_out : World memory
logged_out =
    let left = (logout "unknown" "j" 1040 world).1 in
    record left {
      clock = start_time + 39 * second;
      conn = memory.set (start_time + second) "elsewhere" (text "2") 60 left.conn;
    }

logged_out_stays_out_example :
    ((logout "unknown" "j" 1040 world).0 ≡ ok tt)
    × (get_current_user
          (some (signed default_security of_ann tt logged_out))
          default_security
          logged_out
        ≡ (err (refusal "Token has been revoked"), logged_out))
unfolding logout
logged_out_stays_out_example =
    logged_out_stays_out "unknown" default_security of_ann tt world logged_out (omega arith) refl
      refl (omega arith) (omega arith) refl

logout_revokes_family_example :
    ((logout "one" "j" 1040 world).0 ≡ ok tt)
    × ((logout "one" "j" 1040 world).1.session ≡ record {
      working = record tables {
        refresh_tokens = rotated_away ∷ revoked start_time current ∷ of_bob ∷ [];
      };
      stored = tables;
    })
logout_revokes_family_example =
    logout_revokes_family "one" "j" 1040 world current refl (refl, (refl, (refl, tt)))

abbrev a_minute_later : World memory
a_minute_later = record world { clock = start_time + 60 * second }

token_admits_its_user_example :
    (create_access_token 1 "student" default_security world ≡ (
      ok (
          signed default_security
            (claims 1 "student" default_security world tt a_minute_later)
            tt
            a_minute_later),
      record world { draws = 51 },
    ))
    × (get_current_user
          (some (
            signed default_security
              (claims 1 "student" default_security world tt a_minute_later)
              tt
              a_minute_later))
          default_security
          a_minute_later
        ≡ (
          ok (record {
            id = 1;
            role = "student";
            jti = (claims 1 "student" default_security world tt a_minute_later).jti;
            expires_at = 1900;
          }),
          a_minute_later,
        ))
token_admits_its_user_example =
    token_admits_its_user 1 "student" default_security world tt a_minute_later refl refl
      (omega arith) refl
