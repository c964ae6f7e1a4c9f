-- ===== src/Server/Changes/Mirrors.antt =====
-- The lists of a batch of src/server/watcher.rs and the sets beside them say the same.
use fxi.Base.{◌≡◌, refl, arith, true, false, ◌||◌, List, [], ◌∷◌, ◌++◌, Bool-cases, inl, inr}
use fxi.Base.Keys.{Eq, mem, without, distinct, distinct-append, mem-append, mem-without}
use fxi.Server.Changes.{
  ChangeKind, ChangeBatch, new, add_created, add_modified, drop_created, drop_modified,
  push_deleted, add_kind,
}

module _ {K : Type 0} ⦃e : Eq K⦄ where
  distinct-without : (k : K) (xs : List K) → distinct xs ≡ true → distinct (without k xs) ≡ true
  distinct-without k [] h = refl
  distinct-without k (x ∷ xs) h = ground (arith, distinct-without k xs, mem-without k x xs)

  -- A list and the set that mirrors it.
  pub record IsMirror (xs set : List K) : Type 0 where
    pub once : distinct xs ≡ true
    pub same : (k : K) → mem k xs ≡ mem k set

  push-IsMirror :
      (k : K) (xs set : List K)
      → IsMirror xs set
      → mem k set ≡ false
      → IsMirror (xs ++ (k ∷ [])) (k ∷ set)
  push-IsMirror k xs set m h = record {
    once = ground (arith, m.same k, distinct-append k xs);
    same = λ j. ground (arith, m.same j, mem-append j xs (k ∷ []));
  }

  without-IsMirror :
      (k : K) (xs set : List K) → IsMirror xs set → IsMirror (without k xs) (without k set)
  without-IsMirror k xs set m = record {
    once = distinct-without k xs m.once;
    same = λ j. ground (arith, m.same j, mem-without k j xs, mem-without k j set);
  }

  pub record IsConsistent (b : ChangeBatch K) : Type 0 where
    pub created_mirror : IsMirror b.created b.created_set
    pub modified_mirror : IsMirror b.modified b.modified_set
    pub deleted_mirror : IsMirror b.deleted b.deleted_set

  pub new-IsConsistent : IsConsistent (new {K = K})
  new-IsConsistent = record {
    created_mirror = none_yet;
    modified_mirror = none_yet;
    deleted_mirror = none_yet;
  }
    where
      none_yet : IsMirror [] []
      none_yet = record { once = refl; same = λ k. refl }

  pub add_created-IsConsistent :
      (b : ChangeBatch K) (p : K) → IsConsistent b → IsConsistent (add_created b p)
  add_created-IsConsistent b p c = elim (Bool-cases (mem p b.created_set)) [
    | inl h ↦ rw h c
    | inr h ↦ rw h (record {
      created_mirror = push-IsMirror p b.created b.created_set c.created_mirror h;
      modified_mirror = c.modified_mirror;
      deleted_mirror = c.deleted_mirror;
    })
  ]

  pub add_modified-IsConsistent :
      (b : ChangeBatch K) (p : K) → IsConsistent b → IsConsistent (add_modified b p)
  add_modified-IsConsistent b p c =
      elim (Bool-cases (mem p b.created_set || mem p b.modified_set)) [
        | inl h ↦ rw h c
        | inr h ↦ rw h (record {
          modified_mirror =
              push-IsMirror p b.modified b.modified_set c.modified_mirror (ground arith);
          created_mirror = c.created_mirror;
          deleted_mirror = c.deleted_mirror;
        })
      ]

  pub push_deleted-IsConsistent :
      (b : ChangeBatch K) (p : K) → IsConsistent b → IsConsistent (push_deleted b p)
  push_deleted-IsConsistent b p c = elim (Bool-cases (mem p b.deleted_set)) [
    | inl h ↦ rw h c
    | inr h ↦ rw h (record {
      deleted_mirror = push-IsMirror p b.deleted b.deleted_set c.deleted_mirror h;
      created_mirror = c.created_mirror;
      modified_mirror = c.modified_mirror;
    })
  ]

  pub drop_created-IsConsistent :
      (b : ChangeBatch K) (p : K) → IsConsistent b → IsConsistent (drop_created b p)
  drop_created-IsConsistent b p c = elim (Bool-cases (mem p b.created_set)) [
    | inl h ↦ rw h (record {
      created_mirror = without-IsMirror p b.created b.created_set c.created_mirror;
      modified_mirror = c.modified_mirror;
      deleted_mirror = c.deleted_mirror;
    })
    | inr h ↦ rw h c
  ]

  pub drop_modified-IsConsistent :
      (b : ChangeBatch K) (p : K) → IsConsistent b → IsConsistent (drop_modified b p)
  drop_modified-IsConsistent b p c = elim (Bool-cases (mem p b.modified_set)) [
    | inl h ↦ rw h (record {
      modified_mirror = without-IsMirror p b.modified b.modified_set c.modified_mirror;
      created_mirror = c.created_mirror;
      deleted_mirror = c.deleted_mirror;
    })
    | inr h ↦ rw h c
  ]

  pub add_kind-IsConsistent :
      (b : ChangeBatch K) (p : K) (kind : ChangeKind)
      → IsConsistent b
      → IsConsistent (add_kind b p kind)
  add_kind-IsConsistent b p ChangeKind.created c = add_created-IsConsistent b p c
  add_kind-IsConsistent b p ChangeKind.modified c = add_modified-IsConsistent b p c
  add_kind-IsConsistent b p ChangeKind.deleted c =
      push_deleted-IsConsistent (drop_modified (drop_created b p) p) p
        (drop_modified-IsConsistent (drop_created b p) p (drop_created-IsConsistent b p c))
  add_kind-IsConsistent b p ChangeKind.renamed c = push_deleted-IsConsistent b p c
