-- ===== src/Audit/Rows.antt =====
-- The rows that the placeholders of a batch read.
use mdm.Base.{
  ℕ, zero, suc, ◌+◌, ◌-◌, ◌*◌, ◌≡◌, refl, ap, sym, ◌∙◌, Bool, Option, none, some, List, [], ◌∷◌,
  ◌++◌, map, arith, length, length-append, if◌then◌else◌, all, get_or, is_some, ◌&&◌, inl, inr,
  Option-cases, Bool-cases,
}
use mathlib.Core.Path.{subst}
use mathlib.Core.List.{append_assoc, append-nil}
use mdm.Audit.Query.{AuditEntry, LogRow}
use mdm.Audit.Placeholders.{all-append}
use mdm.Audit.Writing.{
  AuditWriteEntry, Value, detail_text, or_null, values_of, row_from, Row, Batch, add_entry,
  add_entries, value_at, not_null, nullable, ◌>>=◌, fill_row, fill_rows, no_batch, batch_of,
}

-- The row that an entry means.
unfoldable pub meant : AuditWriteEntry → AuditEntry
meant e = record {
  org_id = get_or e.org_id [];
  actor = e.actor;
  actor_type = e.actor_type;
  action = e.action;
  resource_type = e.resource_type;
  resource_id = e.resource_id;
  detail = detail_text e.detail;
  ip_address = e.ip_address;
}

abbrev pub log_row : ℕ → AuditWriteEntry → LogRow
log_row now e = record { entry = meant e; created_at = now }

abbrev pub has_org : AuditWriteEntry → Bool
has_org e = is_some e.org_id

-- The rows of the entries, if each of them has an organization.
abbrev pub rows_of : ℕ → List AuditWriteEntry → Option (List LogRow)
rows_of now es = if all has_org es then some (map (log_row now) es) else none

-- The parameter so far behind the front part.
value_at-append :
    (n k : ℕ) (xs ys : List Value) → n ≡ length xs + k → value_at n (xs ++ ys) ≡ value_at k ys
value_at-append n k [] ys e = let same : n ≡ k = omega (arith, e) in ap (λ i. value_at i ys) same
value_at-append zero k (x ∷ xs) ys e = absurd (omega arith)
value_at-append (suc n) k (x ∷ xs) ys e = value_at-append n k xs ys (omega arith)

not_null-or_null : (t : Option (List ℕ)) → not_null (some (or_null t)) ≡ t
not_null-or_null none = refl
not_null-or_null (some t) = refl

nullable-or_null : (t : Option (List ℕ)) → nullable (some (or_null t)) ≡ some t
nullable-or_null none = refl
nullable-or_null (some t) = refl

-- The row whose numbers start behind the front part reads the entry's own values.
fill_row-row_from :
    (now idx : ℕ) (e : AuditWriteEntry) (front back : List Value)
    → idx ≡ length front + 1
    → fill_row now (front ++ (values_of e ++ back)) (row_from idx)
      ≡ (if has_org e then some (log_row now e) else none)
unfolding fill_row row_from values_of meant
fill_row-row_from now idx e front back h =
    let place =
      λ (n k : ℕ) (p : n ≡ length front + k). value_at-append n k front (values_of e ++ back) p in
    let org : not_null (some (or_null e.org_id)) ≡ e.org_id = not_null-or_null e.org_id in
    rw
      (
        place (idx - 1) 0 (omega (arith, h)),
        place (idx + 1 - 1) 1 (omega (arith, h)),
        place (idx + 2 - 1) 2 (omega (arith, h)),
        place (idx + 3 - 1) 3 (omega (arith, h)),
        place (idx + 4 - 1) 4 (omega (arith, h)),
        place (idx + 5 - 1) 5 (omega (arith, h)),
        place (idx + 6 - 1) 6 (omega (arith, h)),
        place (idx + 7 - 1) 7 (omega (arith, h)),
        org,
        nullable-or_null e.ip_address,
      )
      (elim (Option-cases e.org_id) [ inl o ↦ rw o refl | inr (t, o) ↦ rw o refl ])

-- A batch whose number is the next one, and whose rows read as these entries whatever is pushed
-- later.
pub record Reads (now : ℕ) (b : Batch) (es : List AuditWriteEntry) : Type 0 where
  pub next : b.idx ≡ length b.params + 1
  pub size : length b.params ≡ 8 * length es
  pub rows : (back : List Value) → fill_rows now (b.params ++ back) b.values ≡ rows_of now es

fill_rows-append :
    (now : ℕ) (params : List Value) (rs : List Row) (r : Row)
    → fill_rows now params (rs ++ r ∷ [])
      ≡ (do xs ← fill_rows now params rs; x ← fill_row now params r; some (xs ++ x ∷ []))
fill_rows-append now params [] r = elim (Option-cases (fill_row now params r)) [
  | inl f ↦ rw f refl
  | inr (x, f) ↦ rw f refl
]
fill_rows-append now params (q ∷ rs) r =
    rw (fill_rows-append now params rs r) (elim (Option-cases (fill_row now params q)) [
      | inl e ↦ rw e refl
      | inr (y, e) ↦ rw e (elim (Option-cases (fill_rows now params rs)) [
        | inl f ↦ rw f refl
        | inr (ys, f) ↦ rw f (elim (Option-cases (fill_row now params r)) [
          | inl g ↦ rw g refl
          | inr (x, g) ↦ rw g refl
        ])
      ])
    ])

map-append :
    (now : ℕ) (es : List AuditWriteEntry) (e : AuditWriteEntry)
    → map (log_row now) (es ++ e ∷ []) ≡ map (log_row now) es ++ log_row now e ∷ []
map-append now [] e = refl
map-append now (x ∷ es) e = ap (λ rest. log_row now x ∷ rest) (map-append now es e)

rows_of-append :
    (now : ℕ) (es : List AuditWriteEntry) (e : AuditWriteEntry)
    → (do
      xs ← rows_of now es
      x ← if has_org e then some (log_row now e) else none
      some (xs ++ x ∷ []))
      ≡ rows_of now (es ++ e ∷ [])
rows_of-append now es e =
    let parts : all has_org (es ++ e ∷ []) ≡ (all has_org es && has_org e) =
      ground (arith, all-append has_org es (e ∷ [])) in
    rw (parts, map-append now es e)
      (elim (Bool-cases (all has_org es)) [
        | inl a ↦ rw a (elim (Bool-cases (has_org e)) [ inl b ↦ rw b refl | inr b ↦ rw b refl ])
        | inr a ↦ rw a refl
      ])

length-values_of : (e : AuditWriteEntry) → length (values_of e) ≡ 8
unfolding values_of
length-values_of e = refl

pub add_entry-Reads :
    (now : ℕ) (e : AuditWriteEntry) (b : Batch) (es : List AuditWriteEntry)
    → Reads now b es
    → Reads now (add_entry e b) (es ++ e ∷ [])
unfolding add_entry
add_entry-Reads now e b es h = record {
  next = omega (arith, h.next, length-append b.params (values_of e), length-values_of e);
  size = omega (
    arith,
    h.size,
    length-append b.params (values_of e),
    length-values_of e,
    length-append es (e ∷ []),
  );
  rows = λ back.
      ap (λ params. fill_rows now params (b.values ++ row_from b.idx ∷ []))
        (append_assoc b.params (values_of e) back)
      ∙ (fill_rows-append now (b.params ++ (values_of e ++ back)) b.values (row_from b.idx)
          ∙ rw (h.rows (values_of e ++ back), fill_row-row_from now b.idx e b.params back h.next)
              (rows_of-append now es e));
}

add_entries-Reads :
    (now : ℕ) (es : List AuditWriteEntry) (b : Batch) (front : List AuditWriteEntry)
    → Reads now b front
    → Reads now (add_entries es b) (front ++ es)
add_entries-Reads now [] b front h = subst (Reads now b) (sym (append-nil front)) h
add_entries-Reads now (e ∷ es) b front h =
    subst (Reads now (add_entries es (add_entry e b))) (append_assoc front (e ∷ []) es)
      (add_entries-Reads now es (add_entry e b) (front ++ e ∷ []) (add_entry-Reads now e b front h))

pub batch_of-Reads : (now : ℕ) (es : List AuditWriteEntry) → Reads now (batch_of es) es
unfolding batch_of
batch_of-Reads now es =
    add_entries-Reads now es no_batch [] (record { next = refl; size = refl; rows = λ back. refl })
