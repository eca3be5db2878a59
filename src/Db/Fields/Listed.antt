-- ===== src/Db/Fields/Listed.antt =====
-- GetFieldsByUserID on the set of rows, and behind a registration (fields.go).
use mathlib.Core.List.{Memᴰ}
use nostradamus_api.Prelude.{
  String, ◌≡◌, ◌↔◌, refl, ap, sym, subst, ◌⊎◌, inl, inr, Option, some, List, [], ◌∷◌, map, arith,
  ◌∙◌,
}
use nostradamus_api.Go.Fallible.{Result, ok, err}
use nostradamus_api.Go.Json.{appended, slice_elems}
use nostradamus_api.Types.{Field}
use nostradamus_api.World.{World, State, perform}
use nostradamus_api.World.Calls.{Uuid, Iter, iterate, fields_of_user}
use nostradamus_api.Db.Rows.{Rows, Plus}
use nostradamus_api.Db.Fields.{owned, get_fields_by_user_id, register_field}
use nostradamus_api.Db.Fields.Laws.{added}
use nostradamus_api.Db.Fields.Store.{FieldRow, FieldStore}
use nostradamus_api.Db.Fields.Refines.{Stored, refused, stored, unsure, register_field-Stored}

module _ (W : World) (db : FieldStore W) (user : Uuid) where
  -- The read succeeded, and what it returned has a field exactly where the row of it is there.
  pub data Listed (R : Rows FieldRow) : Result (Option (List Field)) → Type 1 where
    listed :
        (fields : Option (List Field))
        → ((f : Field)
            → Memᴰ f (slice_elems fields)
              ↔ ((f.user_id ≡ some user) × R (user, f.field_id, f.field_name)))
        → Listed R (ok fields)

  owned_of_mem :
      (f : Field) (rows : List (Uuid × String))
      → Memᴰ f (map (owned user) rows)
      → (f.user_id ≡ some user) × Memᴰ (f.field_id, f.field_name) rows
  owned_of_mem f [] m = elim m [ ]
  owned_of_mem f (row ∷ rows) (Memᴰ.head e) =
      (ap Field.user_id e, Memᴰ.head (ap (λ g. (Field.field_id g, Field.field_name g)) e))
  owned_of_mem f (row ∷ rows) (Memᴰ.tail m) =
      let (mine, rest) = owned_of_mem f rows m in (mine, Memᴰ.tail rest)

  mem-map_owned :
      (f : Field) (rows : List (Uuid × String))
      → f.user_id ≡ some user
      → Memᴰ (f.field_id, f.field_name) rows
      → Memᴰ f (map (owned user) rows)
  mem-map_owned f [] q m = elim m [ ]
  mem-map_owned f (row ∷ rows) q (Memᴰ.head e) = Memᴰ.head (ground (arith, q, e))
  mem-map_owned f (row ∷ rows) q (Memᴰ.tail m) = Memᴰ.tail (mem-map_owned f rows q m)

  slice_elems-appended : (fields : List Field) → slice_elems (appended fields) ≡ fields
  slice_elems-appended [] = refl
  slice_elems-appended (f ∷ fields) = refl

  get_fields_by_user_id-Listed :
      (s : State W) → Listed (db.Has s.ext) (get_fields_by_user_id W user s).0
  unfolding get_fields_by_user_id perform
  get_fields_by_user_id-Listed s =
      let rows = Iter.rows (World.answer W (iterate (fields_of_user user)) s.ext).0 in
      let all = slice_elems-appended (map (owned user) rows) in
      rw (db.closes_rows user s.ext) (
        listed _ (λ f.
          let row = db.lists_rows user f.field_id f.field_name s.ext in
          (
            λ m. let (mine, m') = owned_of_mem f rows (subst (Memᴰ f) all m) in (mine, row.1 m'),
            λ h. subst (Memᴰ f) (sym all) (mem-map_owned f rows h.0 (row.0 h.1)),
          )))

  -- Both reads succeeded, and the second returned what the first did and the field, in some order.
  pub data OneMore (f : Field)
      : Result (Option (List Field)) → Result (Option (List Field)) → Type 0 where
    one_more :
        (before after : Option (List Field))
        → ((g : Field) → Memᴰ g (slice_elems after) ↔ (Memᴰ g (slice_elems before) ⊎ (g ≡ f)))
        → OneMore f (ok before) (ok after)

  Listed-OneMore :
      (R R' : Rows FieldRow) (f : Field) (r r' : Result (Option (List Field)))
      → f.user_id ≡ some user
      → Plus (user, f.field_id, f.field_name) R R'
      → Listed R r
      → Listed R' r'
      → OneMore f r r'
  Listed-OneMore R R' f _ _ mine plus (listed before h) (listed after k) =
      one_more before after (λ g. (
        λ m.
            let (owned, row) = (k g).0 m in
            elim ((plus _).0 row) [
              | inl old ↦ inl ((h g).1 (owned, old))
              | inr e ↦ inr (ground (arith, owned, mine, e))
            ],
        λ o. (k g).1 (elim o [
          | inl m ↦ let (owned, row) = (h g).0 m in (owned, (plus _).1 (inl row))
          | inr e ↦ (
            ap Field.user_id e ∙ mine,
            (plus _).1 (inr (ap (λ k. (user, Field.field_id k, Field.field_name k)) e)),
          )
        ]),
      ))

  field_or : Field → Result Field → Field
  field_or f (ok g) = g
  field_or f (err e) = f

  Stored-OneMore :
      (name : String) (R R' : Rows FieldRow) (r : Result Field) (f : Field)
      (before after : Result (Option (List Field)))
      → Stored W db user name R R' r
      → r ≡ ok f
      → Listed R before
      → Listed R' after
      → OneMore f before after
  unfolding field_or
  Stored-OneMore name R R' _ f b a (refused id named same) e h k = absurd (ground (arith, e))
  Stored-OneMore name R R' _ f b a (unsure e' id free new left) e h k = absurd (ground (arith, e))
  Stored-OneMore name R R' _ f b a (stored id free new plus) e h k =
      let mine : added W user name id ≡ f = ap (field_or f) e in
      subst (λ g. OneMore g b a) mine (Listed-OneMore R R' (added W user name id) b a refl plus h k)

  -- Behind a registration that succeeded, GetFieldsByUserID returns for the user what it would have
  -- returned before it, and the new field, in some order, and nothing else.
  pub get_fields_by_user_id-register_field :
      (name : String) (s : State W) (f : Field)
      → (register_field W user name s).0 ≡ ok f
      → OneMore f
          (get_fields_by_user_id W user s).0
          (get_fields_by_user_id W user (register_field W user name s).1).0
  get_fields_by_user_id-register_field name s f e =
      Stored-OneMore name _ _ _ f _ _ (register_field-Stored W db user name s) e
        (get_fields_by_user_id-Listed s)
        (get_fields_by_user_id-Listed (register_field W user name s).1)
