-- ===== src/Scripts/GenerateDevKeys.antt =====
-- scripts/generate_dev_keys.py over the files and folders of the disk. A pair is generated from the
-- number of its draw.
use Prim.Native.Char.{code}
use Prim.Native.String.{◌∷◌ as put, [] as no_text, ◌++◌ as append}
use smartcourse_core.Base.{
  Bool, List, Option, String, [], any, false, if◌then◌else◌, is_none, none, not, some, true, ℕ,
  ◌&&◌, ◌==◌, ◌||◌, ◌∷◌, nat_eq, string_eq,
}
use smartcourse_core.Config.{SecuritySettings}

-- A PEM file and its mode.
pub data Pem : Type 0 where
  private_key : ℕ → Pem
  public_key : ℕ → Pem
  other_text : String → Pem

pub record File : Type 0 where
  pub content : Pem
  pub mode : ℕ

-- The files, the folders, and the paths at which the operating system lets the script create, open
-- for writing or make a folder.
pub record Disk : Type 0 where
  pub files : String → Option File
  pub folders : String → Bool
  pub writable : String → Bool

abbrev pub is_file : Disk → String → Bool
is_file d path = not (is_none (d.files path))

abbrev pub exists : Disk → String → Bool
exists d path = is_file d path || d.folders path

-- The folders above a path as pathlib writes it, the nearest first; "" is the root. The path "a" has
-- none: its parent is the working directory.
abbrev pub folders_above : List String → String → String → List String
folders_above above read no_text = above
folders_above above read (put c rest) =
    let next = append read (put c no_text) in
    let deeper = folders_above (read ∷ above) next rest in
    let same = folders_above above next rest in if code c == 47 then deeper else same

abbrev pub parents : String → List String
parents path = folders_above [] "" path

abbrev pub has_parent : Disk → String → Bool
has_parent d path = elim (parents path) [ [] ↦ true | ◌∷◌ p l ↦ p == "" || d.folders p ]

-- `path.parent.mkdir(parents=True, exist_ok=True)`: whether each folder above is there or can be
-- made, and the disk with all of them.
abbrev pub can_mkdir : Disk → List String → Bool
can_mkdir d [] = true
can_mkdir d (p ∷ l) =
    let rest = can_mkdir d l in
    (p == "" || d.folders p || not (is_file d p) && d.writable p) && rest

abbrev pub mkdir : Disk → List String → Disk
mkdir d made = record d { folders = λ q. any (λ p. p == q) made || d.folders q }

-- `path.write_bytes(…)`, which raises where the parent is missing, the path is a folder, or the
-- operating system refuses. A file that is there keeps its mode.
abbrev pub can_write : Disk → String → Bool
can_write d path = has_parent d path && (not (d.folders path) && d.writable path)

abbrev pub mode_after : ℕ → Option File → ℕ
mode_after default none = default
mode_after default (some f) = f.mode

abbrev pub write_file : ℕ → String → Pem → Disk → Disk
write_file default path content d = record d {
  files = λ p.
      if p == path
      then some (record { content = content; mode = mode_after default (d.files path) })
      else d.files p;
}

abbrev pub with_mode : ℕ → Option File → Option File
with_mode mode none = none
with_mode mode (some f) = some (record f { mode = mode })

abbrev pub chmod : String → ℕ → Disk → Disk
chmod path mode d = record d {
  files = λ p. if p == path then with_mode mode (d.files path) else d.files p;
}

-- The statements from the writing of the public key on, and those from that of the private key on.
abbrev write_public : SecuritySettings → ℕ → ℕ → Disk → Bool × Disk
write_public settings default seed d =
    if can_write d settings.jwt_public_key_path
    then (
      true,
      chmod settings.jwt_private_key_path 384
          (write_file default settings.jwt_public_key_path (public_key seed) d),
    )
    else (false, d)

abbrev write_pair : SecuritySettings → ℕ → ℕ → Disk → Bool × Disk
write_pair settings default seed d =
    if can_write d settings.jwt_private_key_path
    then write_public settings default seed
        (write_file default settings.jwt_private_key_path (private_key seed) d)
    else (false, d)

-- `main`: whether it returns, and the disk after it, where `default` is the mode of a new file and
-- 384 is 0o600.
unfoldable pub generate_dev_keys : SecuritySettings → ℕ → ℕ → Disk → Bool × Disk
generate_dev_keys settings default seed d =
    let above = parents settings.jwt_private_key_path in
    if exists d settings.jwt_private_key_path && exists d settings.jwt_public_key_path
    then (true, d)
    else if can_mkdir d above
    then write_pair settings default seed (mkdir d above)
    else (false, d)
