-- ===== src/Auth/Model.antt =====
-- src/modules/auth/models.py: one row for each issued refresh token.
use smartcourse_core.Base.{Option, String, ℕ}

pub record RefreshToken : Type 0 where
  pub id : ℕ
  pub user_id : ℕ
  pub family_id : ℕ
  pub token_hash : String
  pub expires_at : ℕ
  pub revoked_at : Option ℕ
  pub replaced_by_id : Option ℕ
  pub created_at : ℕ
  pub updated_at : ℕ
