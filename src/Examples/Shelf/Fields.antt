-- ===== src/Examples/Shelf/Fields.antt =====
-- The shelf keeps the rows of fields.
use mathlib.Core.List.{Memᴰ}
use nostradamus_api.Prelude.{
  subst, ◌<◌, String, ◌≡◌, ◌≢◌, ◌↔◌, refl, ap, sym, ◌∙◌, ◌⊎◌, inl, inr, Option, none, some, List,
  [], ◌∷◌, arith, ◌==◌, ==_iff, Bool-cases,
}
use nostradamus_api.Go.Fallible.{ok, Result-cases}
use nostradamus_api.World.Calls.{Uuid}
use nostradamus_api.Db.Fields.Store.{FieldRow, FieldStore}
use nostradamus_api.Examples.Shelf.{
  Shelf, shelf, find, above, ids_of, name_for, rows_for, next-fields,
}

abbrev pub Has : Shelf → FieldRow → Type 0
Has x (user, id, name) = find id x.fields ≡ some (user, name)

pub mem-find :
    (id : Uuid) (row : Uuid × String) (rows : List (Uuid × Uuid × String))
    → find id rows ≡ some row
    → Memᴰ id (ids_of rows)
mem-find id row [] h = absurd (ground (arith, h))
mem-find id row ((j, u, n) ∷ rows) h = elim (Bool-cases (j == id)) [
  | inl q ↦ Memᴰ.head (sym ((==_iff j id).0 q))
  | inr q ↦ Memᴰ.tail (mem-find id row rows (ground (arith, q, h)))
]

pub find-lt-above :
    (id : Uuid) (row : Uuid × String) (rows : List (Uuid × Uuid × String))
    → find id rows ≡ some row
    → id < above rows
find-lt-above id row [] h = absurd (ground (arith, h))
find-lt-above id row ((j, u, n) ∷ rows) h = elim (Bool-cases (j == id)) [
  | inl q ↦ ground (arith, q)
  | inr q ↦ let less = find-lt-above id row rows (ground (arith, q, h)) in omega arith
]

pub name_for_iff :
    (user : Uuid) (name : String) (o : Option (Uuid × String))
    → (o ≡ some (user, name)) ↔ (name_for user o ≡ ok name)
name_for_iff user name none = (λ h. absurd (ground (arith, h)), λ h. absurd (ground (arith, h)))
name_for_iff user name (some (owner, n)) =
    (λ h. ground (arith, h), λ h. ground (arith, h, ==_iff owner user))

pub find-add :
    (user id : Uuid) (name : String) (rows : List (Uuid × Uuid × String)) (g : FieldRow)
    → ((h : FieldRow) → find h.1 rows ≡ some (h.0, h.2) → h.1 ≢ id)
    → (find g.1 ((id, user, name) ∷ rows) ≡ some (g.0, g.2))
      ↔ ((find g.1 rows ≡ some (g.0, g.2)) ⊎ (g ≡ (user, id, name)))
find-add user id name rows (u, i, n) new = elim (Bool-cases (id == i)) [
  | inl q ↦ (
    λ h. inr (ground (arith, q, h)),
    λ h. elim h [
      | inl old ↦ absurd (new (u, i, n) old (sym ((==_iff id i).0 q)))
      | inr e ↦ ground (arith, q, e)
    ],
  )
  | inr q ↦ (
    λ h. inl (ground (arith, q, h)),
    λ h. elim h [ inl old ↦ ground (arith, q, old) | inr e ↦ absurd (ground (arith, q, e)) ],
  )
]

pub mem-rows_for :
    (user id : Uuid) (name : String) (all : List (Uuid × Uuid × String)) (ids : List Uuid)
    → name_for user (find id all) ≡ ok name
    → Memᴰ id ids
    → Memᴰ (id, name) (rows_for user all ids)
mem-rows_for user id name all [] h m = elim m [ ]
mem-rows_for user id name all (j ∷ ids) h (Memᴰ.head e) =
    let q : name_for user (find j all) ≡ ok name =
      subst (λ i. name_for user (find i all) ≡ ok name) e h in
    rw (q, rows_for) (Memᴰ.head (ap (λ i. (i, name)) e))
mem-rows_for user id name all (j ∷ ids) h (Memᴰ.tail m) =
    let rest = mem-rows_for user id name all ids h m in
    elim (Result-cases (name_for user (find j all))) [
      | inl (n, q) ↦ rw (q, rows_for) (Memᴰ.tail rest)
      | inr (e, q) ↦ rw (q, rows_for) rest
    ]

pub cons-named :
    (user id j : Uuid) (name n : String) (all : List (Uuid × Uuid × String))
    (rows : List (Uuid × String))
    → name_for user (find j all) ≡ ok n
    → (Memᴰ (id, name) rows → name_for user (find id all) ≡ ok name)
    → Memᴰ (id, name) ((j, n) ∷ rows)
    → name_for user (find id all) ≡ ok name
cons-named user id j name n all rows q more (Memᴰ.head e) =
    subst (λ p. name_for user (find p.0 all) ≡ ok p.1) (sym e) q
cons-named user id j name n all rows q more (Memᴰ.tail m) = more m

pub rows_for-mem :
    (user id : Uuid) (name : String) (all : List (Uuid × Uuid × String)) (ids : List Uuid)
    → Memᴰ (id, name) (rows_for user all ids)
    → name_for user (find id all) ≡ ok name
rows_for-mem user id name all [] m = elim m [ ]
rows_for-mem user id name all (j ∷ ids) m =
    let more = rows_for-mem user id name all ids in
    elim (Result-cases (name_for user (find j all))) [
      | inl (n, q) ↦
          cons-named user id j name n all (rows_for user all ids) q more (rw (q, rows_for) at m)
      | inr (e, q) ↦ more (rw (q, rows_for) at m)
    ]

unfoldable pub shelf_fields : FieldStore shelf
shelf_fields = record {
  Has = Has;
  keeps =
      λ c x h g. let same = ap (find g.1) (next-fields c x h) in (λ a. sym same ∙ a, λ a. same ∙ a);
  closes = λ user x. refl;
  lists = λ user id name x h. mem-find id _ x.fields h;
  closes_rows = λ user x. refl;
  lists_rows = λ user id name x.
      let named = name_for_iff user name (find id x.fields) in
      (
        λ h. mem-rows_for user id name x.fields _ (named.0 h) (mem-find id _ x.fields h),
        λ m. named.1 (rows_for-mem user id name x.fields _ m),
      );
  names = λ user id name x. name_for_iff user name (find id x.fields);
  finds = λ user id name x h only. rw h refl;
  inserts = λ user id name x new. inl (refl, λ g. find-add user id name x.fields g new);
  fresh = λ x g h e.
      let less = find-lt-above g.1 (g.0, g.2) x.fields h in absurd (omega (arith, less, e));
}
