-- ===== src/Core/PublishedKey.antt =====
-- `build_jwks` of src/core/security.py: what a client that fetches the key set learns.
use smartcourse_core.Base.{[], refl, ◌∷◌, ◌≡◌}
use smartcourse_core.Platform.{Platform}
use smartcourse_core.Platform.Crypto.{rsa}
use smartcourse_core.Config.{SecuritySettings}
use smartcourse_core.Core.Security.{load_public_key}
use smartcourse_core.Core.Jwks.{Jwk, build_jwks}
use smartcourse_core.Core.KeyNumbers.{value_of_bytes, b64url_decode, b64url_uint_lem}
use smartcourse_core.Effects.{World, ok, ◌>>=◌}

-- Whatever the public key is, the key set is built, without an error and without a change of
-- anything. It has one key, whose numbers, read as RFC 7518 says, are those of the public key, and
-- whose algorithm and key id are those of the settings, under which tokens are signed.
pub build_jwks_lem :
    {P : Platform} (settings : SecuritySettings) (k : P.Public) (w : World P)
    → P.public_pem settings.jwt_public_key_path ≡ rsa k
    → (key : Jwk) × (build_jwks settings w ≡ (ok (key ∷ []), w))
      × (value_of_bytes 0 (b64url_decode key.n) ≡ (P.public_numbers k).0)
      × (value_of_bytes 0 (b64url_decode key.e) ≡ (P.public_numbers k).1)
      × (key.alg ≡ settings.jwt_algorithm)
      × (key.kid ≡ settings.jwt_kid)
unfolding build_jwks load_public_key
build_jwks_lem {P} settings k w loads =
    let (n, made_n, value_n) = b64url_uint_lem (P.public_numbers k).0 in
    let (e, made_e, value_e) = b64url_uint_lem (P.public_numbers k).1 in
    (
      record {
        kty = "RSA";
        use_for = "sig";
        alg = settings.jwt_algorithm;
        kid = settings.jwt_kid;
        n = n;
        e = e;
      },
      simp (loads, made_n, made_e, ◌>>=◌),
      value_n,
      value_e,
      refl,
      refl,
    )
