-- ===== src/Database.antt =====
-- The D1 database: worker/migrations/0001_initial_schema.sql to 0005, one list a table, with the
-- counters of its AUTOINCREMENT columns. The children hold the statements that the handlers run.
pub mod Keys
pub mod Ownership
pub mod Documents
pub mod DocumentLaws
pub mod DocumentKeys
pub mod Bookmarks
pub mod BookmarkKeys
pub mod Shares
pub mod ShareKeys
use txt.Prelude.{ℕ, suc, Option, List, Text, Bytes, ◌==◌, Bool, true, false}

pub data Purpose : Type 0 where
  catalog_key content_key access_key bookmark_key share_key : Purpose

pub data ShareState : Type 0 where
  creating active deleting : ShareState

pub record Key : Type 0 where
  pub id : ℕ
  pub purpose : Purpose
  pub wrapped_key : Bytes
  pub created_at : ℕ

pub record Catalog : Type 0 where
  pub key_id : ℕ
  pub catalog_blob : Bytes
  pub updated_at : ℕ

pub record Document : Type 0 where
  pub id : ℕ
  pub created_at : ℕ
  pub content_key_id : ℕ
  pub content_blob : Bytes
  pub access_key_id : Option ℕ
  pub access_blob : Option Bytes
  pub access_version : ℕ

pub record Bookmark : Type 0 where
  pub id : ℕ
  pub document_id : ℕ
  pub created_at : ℕ
  pub key_id : ℕ
  pub bookmark_blob : Bytes

pub record Share : Type 0 where
  pub share_id_hash : Bytes
  pub document_id : ℕ
  pub object_path_hash : Bytes
  pub key_id : ℕ
  pub owner_blob : Bytes
  pub state : ShareState
  pub created_at : ℕ

pub record Owner : Type 0 where
  pub wrapped_umk : Bytes
  pub sign_public_key : Bytes
  pub wrapped_sign_private_key : Bytes
  pub kem_public_key : Bytes
  pub wrapped_kem_private_key : Bytes
  pub encrypted_credentials : Bytes
  pub user_handle_hash : Bytes
  pub db_prefix_hash : Bytes

pub record Database : Type 0 where
  pub owner : Option Owner
  pub key_store : List Key
  pub catalog : Option Catalog
  pub documents : List Document
  pub bookmarks : List Bookmark
  pub shares : List Share
  pub next_key : ℕ
  pub next_bookmark : ℕ

-- `state = 'active'`.
unfoldable pub is_active : ShareState → Bool
is_active creating = false
is_active active = true
is_active deleting = false
