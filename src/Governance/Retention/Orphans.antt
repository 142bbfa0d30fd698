-- ===== src/Governance/Retention/Orphans.antt =====
-- Which artefacts are still held (packages/governance/src/retention.ts).
use vibefy.Prelude.{
  ◌<◌, String, Bool, not, ◌&&◌, ◌||◌, Option, none, some, List, [], ◌∷◌, Memᴰ, filter, mem_filter→,
  mem_filter←, any, ltb, lt→ltb, ltb→lt, ◌==◌, text_eq, eq_sound, ◌≡◌, ◌≢◌, refl, ap, ◌↔◌, inl, inr,
  Bool-cases, arith,
}
use vibefy.Prelude.Time.{Date}
use vibefy.Governance.Retention.{
  RetainedRecord, due_for_deletion, OrphanAuditRow, is_orphaned, is_removed_later, path_from,
  orphan_path, same_text, unresolved_orphans, coalesce, sql_path, is_known, unresolved_sql,
}

-- Every record that is kept past its deadline is due, with all of its fields, and nothing else; a
-- record on its deadline is not.
pub due_iff :
    (records : List RetainedRecord) (now : Date) (r : RetainedRecord)
    → Memᴰ r (due_for_deletion records now) ↔ (Memᴰ r records × (r.retention_until < now))
unfolding due_for_deletion
due_iff records now r = (
  (λ i.
      let (there, late) =
        mem_filter→ (λ (x : RetainedRecord). ltb x.retention_until now) records i in
      (there, ltb→lt _ _ late)),
  λ (i, late). mem_filter← (λ (x : RetainedRecord). ltb x.retention_until now) i (lt→ltb _ _ late),
)

same_path :
    (stored in_summary : Option String)
    → stored ≢ some ""
    → path_from stored in_summary ≡ coalesce stored in_summary
same_path none s h = refl
same_path (some t) s h = elim (Bool-cases (t == "")) [
  | inl empty ↦ absurd (h (ap some (eq_sound t "" empty)))
  | inr given ↦ rw given
]

known_text : (a b : Option String) → (is_known b && same_text a b) ≡ same_text a b
known_text none none = refl
known_text none (some b) = refl
known_text (some a) none = refl
known_text (some a) (some b) = refl

-- One pass over all rows finds what the two passes over the recovered rows find.
any_or :
    {A : Type 0} (keep p q : A → Bool) (xs : List A)
    → any (λ x. keep x && (p x || q x)) xs ≡ (any p (filter keep xs) || any q (filter keep xs))
any_or keep p q [] = refl
any_or keep p q (x ∷ xs) =
    let rest = any_or keep p q xs in
    elim (Bool-cases (keep x)) [
      | inl kept ↦
          rw (kept, rest) (bits (p x) (q x) (any p (filter keep xs)) (any q (filter keep xs)))
      | inr dropped ↦ rw (dropped, rest)
    ]
  where
    bits : (a b c d : Bool) → ((a || b) || (c || d)) ≡ ((a || c) || (b || d))
    bits a b c d = ground arith

filter_ext :
    {A : Type 0} (p q : A → Bool) (xs : List A)
    → ((a : A) → Memᴰ a xs → p a ≡ q a)
    → filter p xs ≡ filter q xs
filter_ext p q [] h = refl
filter_ext p q (x ∷ xs) h = rw (h x (Memᴰ.head refl), filter_ext p q xs (λ a i. h a (Memᴰ.tail i)))

any_ext :
    {A : Type 0} (p q : A → Bool) (xs : List A)
    → ((a : A) → Memᴰ a xs → p a ≡ q a)
    → any p xs ≡ any q xs
any_ext p q [] h = refl
any_ext p q (x ∷ xs) h = rw (h x (Memᴰ.head refl), any_ext p q xs (λ a i. h a (Memᴰ.tail i)))

de_morgan : (a b c : Bool) → (a && (not b && not c)) ≡ (a && not (b || c))
de_morgan a b c = ground arith

-- The administrator's page and the sweep see the same artefacts: on rows of which none has an empty
-- stored path, the function over rows keeps exactly the rows that the query keeps, in their order.
pub orphans_agree :
    (rows : List OrphanAuditRow)
    → ((r : OrphanAuditRow) → Memᴰ r rows → r.storage_path ≢ some "")
    → unresolved_orphans rows ≡ unresolved_sql rows
unfolding unresolved_orphans unresolved_sql
orphans_agree rows given = filter_ext _ _ rows agree
  where
    removed : OrphanAuditRow → Bool
    removed r = is_removed_later r.action

    path_of : (r : OrphanAuditRow) → Memᴰ r rows → orphan_path r ≡ sql_path r
    path_of r i =
        unfold orphan_path sql_path in same_path r.storage_path r.path_in_summary (given r i)

    agree :
        (o : OrphanAuditRow)
        → Memᴰ o rows
        → (is_orphaned o.action
            && (not (
                  any
                    (λ (r : OrphanAuditRow). same_text (orphan_path r) (orphan_path o))
                    (filter removed rows))
                && not (
                    any
                      (λ (r : OrphanAuditRow). same_text r.entity_id o.entity_id)
                      (filter removed rows))))
          ≡ (is_orphaned o.action
              && not (
                  any
                    (λ (later : OrphanAuditRow).
                      removed later
                      && (same_text (sql_path later) (sql_path o)
                          || (is_known o.entity_id && same_text later.entity_id o.entity_id)))
                    rows))
    agree o i =
        let paths =
          any_ext (λ (r : OrphanAuditRow). same_text (orphan_path r) (orphan_path o))
            (λ (r : OrphanAuditRow). same_text (sql_path r) (sql_path o)) (filter removed rows)
            (λ r j. rw (path_of r (mem_filter→ removed rows j).0, path_of o i)) in
        let entities =
          any_ext
            (λ (r : OrphanAuditRow). is_known o.entity_id && same_text r.entity_id o.entity_id)
            (λ (r : OrphanAuditRow). same_text r.entity_id o.entity_id) (filter removed rows)
            (λ r j. known_text r.entity_id o.entity_id) in
        let query =
          any_or removed (λ (r : OrphanAuditRow). same_text (sql_path r) (sql_path o))
            (λ (r : OrphanAuditRow). is_known o.entity_id && same_text r.entity_id o.entity_id)
            rows in
        rw (query, entities, paths) (de_morgan _ _ _)
