-- ===== src/Scripts/Keys.antt =====
-- The pair of key files that scripts/generate_dev_keys.py leaves.
use smartcourse_core.Base.{
  ==-refl, Bool-cases, String, arith, eq_iff, false, if◌then◌else◌, inl, inr, refl, some, true, ℕ,
  ◌&&◌, ◌==◌, ◌≡◌, nat_eq, string_eq,
}
use smartcourse_core.Config.{SecuritySettings}
use smartcourse_core.Scripts.GenerateDevKeys.{
  private_key, public_key, Disk, exists, mode_after, parents, can_mkdir, mkdir, can_write,
  generate_dev_keys,
}

module _ (settings : SecuritySettings) (default seed : ℕ) (d : Disk) where
  -- If one of the two files is missing, and the folder of the private key can be made and that key
  -- written, the private key is written anew, over one that is there. The script returns exactly if
  -- the public key can be written too: then the two are one pair, and only the owner may read the
  -- private key. Else it raises, and the private key is left with the mode of a new file, or of the
  -- file that was there. No other file changes.
  pub keys_generated :
      (exists d settings.jwt_private_key_path && exists d settings.jwt_public_key_path) ≡ false
      → (settings.jwt_private_key_path == settings.jwt_public_key_path) ≡ false
      → can_mkdir d (parents settings.jwt_private_key_path) ≡ true
      → let made = mkdir d (parents settings.jwt_private_key_path) in
        can_write made settings.jwt_private_key_path ≡ true
        → (path : String)
        → let (done, after) = generate_dev_keys settings default seed d in
          let written = can_write made settings.jwt_public_key_path in
          (done ≡ written)
          × (after.files path ≡ (
              if path == settings.jwt_private_key_path
              then some (record {
                content = private_key seed;
                mode =
                    if written
                    then 384
                    else mode_after default (d.files settings.jwt_private_key_path);
              })
              else if path == settings.jwt_public_key_path && written
              then some (record {
                content = public_key seed;
                mode = mode_after default (d.files settings.jwt_public_key_path);
              })
              else d.files path))
  unfolding generate_dev_keys
  keys_generated missing differ makes writes path =
      let pri = settings.jwt_private_key_path in
      let pub_ = settings.jwt_public_key_path in
      let made = mkdir d (parents pri) in
      elim (Bool-cases (can_write made pub_)) [
        | inl h ↦
            rw (missing, makes, writes, h)
              (refl, ground (arith, differ, eq_iff pri pub_, eq_iff pub_ pri, ==-refl pri))
        | inr h ↦
            rw (missing, makes, writes, h)
              (refl, ground (arith, differ, eq_iff pri pub_, eq_iff pub_ pri, ==-refl pri))
      ]
