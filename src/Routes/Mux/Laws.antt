-- ===== src/Routes/Mux/Laws.antt =====
-- Which requests lead to a job (mux.go).
use Prim.Native.Char.{Char}
use nostradamus_api.Prelude.{
  String, ◌<>◌, ◌≡◌, ◌≢◌, ◌⊎◌, ◌↔◌, refl, ap, sym, subst, ◌∙◌, inl, inr, Bool, true, false, List,
  [], ◌∷◌, arith, eq_iff, str_eq, Bool-cases, if◌then◌else◌,
}
use nostradamus_api.Go.Http.{Request}
use nostradamus_api.Go.ServeMux.{split_slash, read_parts, segments, clean_path}
use nostradamus_api.Go.ServeMux.Laws.{is_plain, split_slash_sound, split_slash_complete}
use nostradamus_api.World.{World}
use nostradamus_api.Routes.Mux.{Route, job, route, match_one, match_two, match_segments}

is_job : Route → Bool
is_job (job id) = true
is_job _ = false

match_one-is_job : (a : String) → is_job (match_one a) ≡ false
unfolding match_one is_job
match_one-is_job a = ground arith

id_or : String → Route → String
id_or d (job id) = id
id_or d _ = d

match_two_sound :
    (a b id : String) → match_two a b ≡ job id → (a ≡ "jobs") × (b ≡ id) × (b ≢ "run") × (b ≢ "/")
unfolding match_two is_job id_or
match_two_sound a b id h = (
  ground (arith, ap is_job h, eq_iff a "sensors", eq_iff a "jobs", eq_iff b "credentials"),
  ground (arith, ap is_job h, ap (id_or "") h),
  λ e. ground (arith, ap is_job h, eq_iff b "run", eq_iff b "credentials"),
  λ e. ground (arith, ap is_job h, eq_iff b "/", eq_iff b "run"),
)

match_two_complete : (a b : String) → a ≡ "jobs" → b ≢ "run" → b ≢ "/" → match_two a b ≡ job b
unfolding match_two
match_two_complete a b e other one =
    let not_run : str_eq b "run" ≡ false = differs b "run" other in
    let not_slash : str_eq b "/" ≡ false = differs b "/" one in rw (e, not_run, not_slash) refl
  where
    differs : (s t : String) → s ≢ t → str_eq s t ≡ false
    differs s t ne = elim (Bool-cases (str_eq s t)) [
      | inl q ↦ absurd (ne ((eq_iff s t).0 q))
      | inr q ↦ q
    ]

-- The path is, behind its first character, of two segments, the second one not empty, which read
-- unescaped are `jobs` and the identifier.
pub record IsJobPath (W : World) (path id : String) : Type 0 where
  pub first : Char
  pub left : String
  pub right : String
  pub whole : path ≡ String.◌∷◌ first (left <> ("/" <> right))
  pub left_plain : is_plain left ≡ true
  pub right_plain : is_plain right ≡ true
  pub right_filled : right ≢ ""
  pub reads_jobs : World.path_unescape W left ≡ "jobs"
  pub reads_id : World.path_unescape W right ≡ id

-- A text without its first character.
behind : String → String
behind String.[] = ""
behind (String.◌∷◌ c s) = s

module _ (W : World) where
  abbrev read : List String → List String
  read = read_parts (World.path_unescape W)

  -- The two parts of a path for a job.
  record AreJobParts (parts : List String) (id : String) : Type 0 where
    left : String
    right : String
    both : parts ≡ left ∷ right ∷ []
    filled : right ≢ ""
    jobs : World.path_unescape W left ≡ "jobs"
    same : World.path_unescape W right ≡ id
    not_run : id ≢ "run"
    not_slash : id ≢ "/"

  two_parts :
      (a b id : String) → match_segments (read (a ∷ b ∷ [])) ≡ job id → AreJobParts (a ∷ b ∷ []) id
  unfolding match_segments read_parts
  two_parts a b id h = elim (Bool-cases (str_eq b "")) [
    | inl q ↦
        let as_slash : match_two (World.path_unescape W a) "/" ≡ job id =
          subst
            (λ (t : Bool).
              match_two (World.path_unescape W a) (if t then "/" else World.path_unescape W b)
              ≡ job id)
            q h in
        let (_, _, _, other) = match_two_sound (World.path_unescape W a) "/" id as_slash in
        absurd (other refl)
    | inr q ↦
        let (jobs, same, run, slash) =
          match_two_sound (World.path_unescape W a) (World.path_unescape W b) id (
            subst
              (λ (t : Bool).
                match_two (World.path_unescape W a) (if t then "/" else World.path_unescape W b)
                ≡ job id)
              q h) in
        record {
          left = a;
          right = b;
          both = refl;
          filled = λ e. ground (arith, q, (eq_iff b "").1 e);
          jobs = jobs;
          same = same;
          not_run = λ e. run (same ∙ e);
          not_slash = λ e. slash (same ∙ e);
        }
  ]

  parts_sound :
      (parts : List String) (id : String)
      → match_segments (read parts) ≡ job id
      → AreJobParts parts id
  unfolding match_segments read_parts is_job
  parts_sound [] id h = absurd (ground (arith, ap is_job h))
  parts_sound (a ∷ []) id h = absurd (ground (arith, ap is_job h, match_one-is_job _))
  parts_sound (a ∷ b ∷ []) id h = two_parts a b id h
  parts_sound (a ∷ b ∷ c ∷ []) id h = absurd (ground (arith, ap is_job h))
  parts_sound (a ∷ b ∷ c ∷ d ∷ ps) id h = absurd (ground (arith, ap is_job h))

  segments_sound :
      (path id : String)
      → match_segments (segments (World.path_unescape W) path) ≡ job id
      → IsJobPath W path id × (id ≢ "run") × (id ≢ "/")
  unfolding segments match_segments is_job
  segments_sound String.[] id h = absurd (ground (arith, ap is_job h))
  segments_sound (String.◌∷◌ c s) id h =
      let parts = parts_sound (split_slash s) id h in
      let (whole, p, q) = split_slash_sound s parts.left parts.right parts.both in
      (
        record {
          first = c;
          left = parts.left;
          right = parts.right;
          whole = ap (λ t. String.◌∷◌ c t) whole;
          left_plain = p;
          right_plain = q;
          right_filled = parts.filled;
          reads_jobs = parts.jobs;
          reads_id = parts.same;
        },
        parts.not_run,
        parts.not_slash,
      )

  segments_complete :
      (path id : String)
      → IsJobPath W path id
      → id ≢ "run"
      → id ≢ "/"
      → match_segments (segments (World.path_unescape W) path) ≡ job id
  unfolding segments read_parts match_segments
  segments_complete path id p run slash =
      let split = split_slash_complete p.left p.right p.left_plain p.right_plain in
      let filled : str_eq p.right "" ≡ false = elim (Bool-cases (str_eq p.right "")) [
        | inl q ↦ absurd (p.right_filled ((eq_iff p.right "").0 q))
        | inr q ↦ q
      ] in
      rw (p.whole, split, filled, p.reads_id) (match_two_complete _ id p.reads_jobs run slash)

  -- A path for a job is not `*`.
  not_star : (path id : String) → IsJobPath W path id → str_eq path "*" ≡ false
  unfolding split_slash behind
  not_star path id p = elim (Bool-cases (str_eq path "*")) [
    | inr q ↦ q
    | inl q ↦
        let same : String.◌∷◌ p.first (p.left <> ("/" <> p.right)) ≡ "*" =
          sym p.whole ∙ (eq_iff path "*").0 q in
        let split = split_slash_complete p.left p.right p.left_plain p.right_plain in
        let one : split_slash (p.left <> ("/" <> p.right)) ≡ "" ∷ [] =
          ap (λ s. split_slash (behind s)) same in
        absurd (ground (arith, sym split ∙ one))
  ]

  -- A request is for one job exactly where its path is in canonical form, or the method is CONNECT,
  -- and consists of two segments, the second one not empty, which read unescaped are `jobs` and the
  -- identifier of the job, and that is neither `run` nor a slash.
  pub route-job_iff :
      (r : Request) (id : String)
      → (route W r ≡ job id) ↔ (
          ((r.method ≡ "CONNECT") ⊎ (clean_path r.path ≡ r.path))
          × IsJobPath W r.path id
          × (id ≢ "run")
          × (id ≢ "/"))
  unfolding route is_job
  route-job_iff r id = (
    λ h. elim (Bool-cases (str_eq r.path "*")) [
      | inl q ↦ absurd (ground (arith, q, ap is_job h))
      | inr q ↦ elim (Bool-cases (str_eq r.method "CONNECT")) [
        | inl m ↦
            let found = segments_sound r.path id (ground (arith, q, m, h)) in
            (inl ((eq_iff r.method "CONNECT").0 m), found.0, found.1, found.2)
        | inr m ↦ elim (Bool-cases (str_eq (clean_path r.path) r.path)) [
          | inr c ↦ absurd (ground (arith, q, m, c, ap is_job h))
          | inl c ↦
              let found = segments_sound r.path id (ground (arith, q, m, c, h)) in
              (inr ((eq_iff (clean_path r.path) r.path).0 c), found.0, found.1, found.2)
        ]
      ]
    ],
    λ (form, path, run, slash).
        let star = not_star r.path id path in
        let found = segments_complete r.path id path run slash in
        elim form [
          | inl m ↦ rw (star, (eq_iff r.method "CONNECT").1 m) found
          | inr c ↦ elim (Bool-cases (str_eq r.method "CONNECT")) [
            | inl m ↦ rw (star, m) found
            | inr m ↦ rw (star, m, (eq_iff (clean_path r.path) r.path).1 c) found
          ]
        ],
  )
