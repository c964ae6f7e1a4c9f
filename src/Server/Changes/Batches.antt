-- ===== src/Server/Changes/Batches.antt =====
-- What holds of every batch of src/server/watcher.rs.
use fxi.Base.{
  ◌≡◌, refl, arith, Bool, true, false, not, ◌&&◌, ◌||◌, List, [], ◌∷◌, if◌then◌else◌, ◌∙◌, ap,
}
use fxi.Base.Keys.{Eq, mem, mem-append, mem-without}
use fxi.Server.Changes.{
  ChangeKind, FileChange, ChangeBatch, add_created, add_modified, drop_created, drop_modified,
  push_deleted, add_kind, add, add_all, merge,
}
use fxi.Server.Changes.Mirrors.{
  IsConsistent, drop_created-IsConsistent, drop_modified-IsConsistent, add_kind-IsConsistent,
}

-- A batch as one path sees it: whether the path is in the created, modified and deleted files.
pub record View : Type 0 where
  pub in_created : Bool
  pub in_modified : Bool
  pub in_deleted : Bool

-- What a change to a path means for the path's view.
abbrev pub change_view : ChangeKind → View → View
change_view ChangeKind.created v = record v { in_created = true }
change_view ChangeKind.modified v = record v { in_modified = v.in_modified || not v.in_created }
change_view ChangeKind.deleted v = record {
  in_created = false;
  in_modified = false;
  in_deleted = true;
}
change_view ChangeKind.renamed v = record v { in_deleted = true }

-- A change to a path among the paths of a list, or to none.
abbrev pub change_view_if : ChangeKind → Bool → View → View
change_view_if kind here v = if here then change_view kind v else v

change_view_twice :
    (kind : ChangeKind) (v : View) → change_view kind (change_view kind v) ≡ change_view kind v
change_view_twice ChangeKind.created v = refl
change_view_twice ChangeKind.modified v = ground arith
change_view_twice ChangeKind.deleted v = refl
change_view_twice ChangeKind.renamed v = refl

change_view_if_or :
    (kind : ChangeKind) (a b : Bool) (v : View)
    → change_view_if kind b (change_view_if kind a v) ≡ change_view_if kind (a || b) v
change_view_if_or kind false b v = refl
change_view_if_or kind true false v = refl
change_view_if_or kind true true v = change_view_twice kind v

module _ {K : Type 0} ⦃e : Eq K⦄ where
  beq_comm : (a b : K) → e.beq a b ≡ e.beq b a
  beq_comm a b = ground (arith, e.beq_iff a b, e.beq_iff b a)

  abbrev pub view : ChangeBatch K → K → View
  view b j = record {
    in_created = mem j b.created;
    in_modified = mem j b.modified;
    in_deleted = mem j b.deleted;
  }

  view-add_created :
      (b : ChangeBatch K) (p j : K)
      → IsConsistent b
      → view (add_created b p) j ≡ record (view b j) { in_created = mem j b.created || e.beq p j }
  view-add_created b p j c = ground (
    arith,
    c.created_mirror.same p,
    mem-append j b.created (p ∷ []),
    e.beq_iff p j,
    e.beq_iff j p,
  )

  view-add_modified :
      (b : ChangeBatch K) (p j : K)
      → IsConsistent b
      → view (add_modified b p) j ≡ record (view b j) {
        in_modified = mem j b.modified || (e.beq p j && not (mem j b.created));
      }
  view-add_modified b p j c = ground (
    arith,
    c.created_mirror.same p,
    c.modified_mirror.same p,
    mem-append j b.modified (p ∷ []),
    e.beq_iff p j,
    e.beq_iff j p,
  )

  view-push_deleted :
      (b : ChangeBatch K) (p j : K)
      → IsConsistent b
      → view (push_deleted b p) j ≡ record (view b j) { in_deleted = mem j b.deleted || e.beq p j }
  view-push_deleted b p j c = ground (
    arith,
    c.deleted_mirror.same p,
    mem-append j b.deleted (p ∷ []),
    e.beq_iff p j,
    e.beq_iff j p,
  )

  view-drop_created :
      (b : ChangeBatch K) (p j : K)
      → IsConsistent b
      → view (drop_created b p) j
        ≡ record (view b j) { in_created = mem j b.created && not (e.beq p j) }
  view-drop_created b p j c =
      ground (arith, c.created_mirror.same p, mem-without p j b.created, e.beq_iff p j)

  view-drop_modified :
      (b : ChangeBatch K) (p j : K)
      → IsConsistent b
      → view (drop_modified b p) j
        ≡ record (view b j) { in_modified = mem j b.modified && not (e.beq p j) }
  view-drop_modified b p j c =
      ground (arith, c.modified_mirror.same p, mem-without p j b.modified, e.beq_iff p j)

  pub view-add_kind :
      (b : ChangeBatch K) (p : K) (kind : ChangeKind) (j : K)
      → IsConsistent b
      → view (add_kind b p kind) j ≡ (if e.beq p j then change_view kind (view b j) else view b j)
  view-add_kind b p ChangeKind.created j c = let step = view-add_created b p j c in ground arith
  view-add_kind b p ChangeKind.modified j c = let step = view-add_modified b p j c in ground arith
  view-add_kind b p ChangeKind.renamed j c = let step = view-push_deleted b p j c in ground arith
  view-add_kind b p ChangeKind.deleted j c =
      let b₁ = drop_created b p in
      let b₂ = drop_modified b₁ p in
      let c₁ = drop_created-IsConsistent b p c in
      let first = view-drop_created b p j c in
      let second = view-drop_modified b₁ p j c₁ in
      let third = view-push_deleted b₂ p j (drop_modified-IsConsistent b₁ p c₁) in ground arith

  -- batch.add for each of the changes.
  unfoldable pub add_each : ChangeBatch K → List (FileChange K) → ChangeBatch K
  unfolding add
  add_each b [] = b
  add_each b (change ∷ changes) = add_each (add b change) changes

  abbrev pub change_views : K → View → List (FileChange K) → View
  change_views j v [] = v
  change_views j v (change ∷ changes) =
      change_views j (if e.beq change.path j then change_view change.kind v else v) changes

  -- A batch that takes any changes, in any order, stays consistent: each list mirrors its set and
  -- names no path twice. For each path it holds what the changes of that path say one after the
  -- other, and the changes of other paths do not matter.
  pub add_each-IsConsistent :
      (b : ChangeBatch K) (changes : List (FileChange K)) (j : K)
      → IsConsistent b
      → IsConsistent (add_each b changes)
        × (view (add_each b changes) j ≡ change_views j (view b j) changes)
  unfolding add_each add
  add_each-IsConsistent b [] j c = (c, refl)
  add_each-IsConsistent b (change ∷ changes) j c =
      let c' = add_kind-IsConsistent b change.path change.kind c in
      let step = view-add_kind b change.path change.kind j c in
      rw (← step) (add_each-IsConsistent (add_kind b change.path change.kind) changes j c')

  add_all_lem :
      (kind : ChangeKind) (b : ChangeBatch K) (ps : List K) (j : K)
      → IsConsistent b
      → IsConsistent (add_all kind b ps)
        × (view (add_all kind b ps) j ≡ change_view_if kind (mem j ps) (view b j))
  unfolding add
  add_all_lem kind b [] j c = (c, refl)
  add_all_lem kind b (p ∷ ps) j c =
      let c' = add_kind-IsConsistent b p kind c in
      let step = view-add_kind b p kind j c in
      let rest = add_all_lem kind (add_kind b p kind) ps j c' in
      let comm = beq_comm j p in
      (
        rest.0,
        rw comm (
            rest.1
            ∙ (ap (λ (v : View). change_view_if kind (mem j ps) v) step
                ∙ change_view_if_or kind (e.beq p j) (mem j ps) (view b j))),
      )

  -- Merging a batch into a consistent one keeps it consistent, and means for each path that it is
  -- created, modified and then deleted, as far as the other batch says so.
  pub merge-IsConsistent :
      (b other : ChangeBatch K) (j : K)
      → IsConsistent b
      → IsConsistent (merge b other)
        × (view (merge b other) j
            ≡ change_view_if ChangeKind.deleted (mem j other.deleted) (
                change_view_if ChangeKind.modified
                  (mem j other.modified)
                  (change_view_if ChangeKind.created (mem j other.created) (view b j))))
  unfolding merge
  merge-IsConsistent b other j c =
      let first = add_all_lem ChangeKind.created b other.created j c in
      let b₁ = add_all ChangeKind.created b other.created in
      let second = add_all_lem ChangeKind.modified b₁ other.modified j first.0 in
      let b₂ = add_all ChangeKind.modified b₁ other.modified in
      let third = add_all_lem ChangeKind.deleted b₂ other.deleted j second.0 in
      (
        third.0,
        third.1
            ∙ ap (λ (v : View). change_view_if ChangeKind.deleted (mem j other.deleted) v)
                (second.1
                  ∙ ap (λ (v : View). change_view_if ChangeKind.modified (mem j other.modified) v)
                      first.1),
      )
