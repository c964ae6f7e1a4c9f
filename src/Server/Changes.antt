-- ===== src/Server/Changes.antt =====
-- src/server/watcher.rs: batches of changes to files.
pub mod Mirrors
pub mod Batches
use fxi.Base.{
  Bool, true, false, not, ◌&&◌, ◌||◌, List, [], ◌∷◌, ◌++◌, ℕ, ◌+◌, length, if◌then◌else◌,
}
use fxi.Base.Keys.{Eq, mem, without}

pub data ChangeKind : Type 0 where
  created modified deleted renamed : ChangeKind

pub record FileChange (K : Type 0) : Type 0 where
  pub path : K
  pub kind : ChangeKind

-- The lists, and the sets that say quickly what is in them.
pub record ChangeBatch (K : Type 0) : Type 0 where
  pub created : List K
  pub modified : List K
  pub deleted : List K
  pub created_set : List K
  pub modified_set : List K
  pub deleted_set : List K

abbrev pub new : {K : Type 0} → ChangeBatch K
new = record {
  created = [];
  modified = [];
  deleted = [];
  created_set = [];
  modified_set = [];
  deleted_set = [];
}

abbrev pub null : {K : Type 0} → List K → Bool
null [] = true
null (x ∷ xs) = false

unfoldable pub is_empty : {K : Type 0} → ChangeBatch K → Bool
is_empty b = null b.created && (null b.modified && null b.deleted)

unfoldable pub total_changes : {K : Type 0} → ChangeBatch K → ℕ
total_changes b = length b.created + length b.modified + length b.deleted

module _ {K : Type 0} ⦃e : Eq K⦄ where
  abbrev pub add_created : ChangeBatch K → K → ChangeBatch K
  add_created b p =
      if mem p b.created_set
      then b
      else record b { created = b.created ++ (p ∷ []); created_set = p ∷ b.created_set }

  abbrev pub add_modified : ChangeBatch K → K → ChangeBatch K
  add_modified b p =
      if mem p b.created_set || mem p b.modified_set
      then b
      else record b { modified = b.modified ++ (p ∷ []); modified_set = p ∷ b.modified_set }

  -- remove, and the scan of the list where the path was present.
  abbrev pub drop_created : ChangeBatch K → K → ChangeBatch K
  drop_created b p =
      if mem p b.created_set
      then record b { created = without p b.created; created_set = without p b.created_set }
      else b

  abbrev pub drop_modified : ChangeBatch K → K → ChangeBatch K
  drop_modified b p =
      if mem p b.modified_set
      then record b { modified = without p b.modified; modified_set = without p b.modified_set }
      else b

  abbrev pub push_deleted : ChangeBatch K → K → ChangeBatch K
  push_deleted b p =
      if mem p b.deleted_set
      then b
      else record b { deleted = b.deleted ++ (p ∷ []); deleted_set = p ∷ b.deleted_set }

  abbrev pub add_kind : ChangeBatch K → K → ChangeKind → ChangeBatch K
  add_kind b p ChangeKind.created = add_created b p
  add_kind b p ChangeKind.modified = add_modified b p
  add_kind b p ChangeKind.deleted = push_deleted (drop_modified (drop_created b p) p) p
  add_kind b p ChangeKind.renamed = push_deleted b p

  unfoldable pub add : ChangeBatch K → FileChange K → ChangeBatch K
  add b change = add_kind b change.path change.kind

  abbrev pub add_all : ChangeKind → ChangeBatch K → List K → ChangeBatch K
  add_all kind b [] = b
  add_all kind b (p ∷ ps) = add_all kind (add b (record { path = p; kind = kind })) ps

  unfoldable pub merge : ChangeBatch K → ChangeBatch K → ChangeBatch K
  unfolding add
  merge b other =
      add_all ChangeKind.deleted
        (add_all ChangeKind.modified (add_all ChangeKind.created b other.created) other.modified)
        other.deleted
