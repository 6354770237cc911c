-- ===== src/Registry/Server/Paging.antt =====
-- The pages of RetrieveModels and RetrieveVersionInfos: what a request with a list of ids or numbers
-- answers, and where its handle leads.
use cogment.Prelude.{
  ℕ, zero, suc, ◌+◌, ◌%◌, ◌^◌, ◌≤◌, ◌<◌, ◌≡◌, ◌∙◌, ◌⊎◌, ℤ, ◌&&◌, inl, inr, refl, sym, ap, subst,
  String, true, none, some, List, [], ◌∷◌, ◌++◌, leb, if◌then◌else◌, length, take, drop, arith,
  Bool-cases, length-append, length-drop, length-take_le,
}
use cogment.Utils.Decimal.{
  format_int, format_uint, parse_int, parse_uint, parse-format_int, parse-format_uint,
  format_int_cons, format_uint_cons,
}
use cogment.Registry.Types.{pos, uint_mod, VersionInfo, Error, Reply-cases, ok, M, Backend}
use cogment.Registry.Server.{
  retrieve_models_from, retrieve_versions_from, then_reply, models_page, unknown_model_status,
}
use cogment.Registry.Server.{
  Status, Outcome, answers, fails, panics, first_items, slice, retrieve_each, ModelsPage,
  VersionsPage, make_pb_model_version_info, advance_offset, retrieve_models, retrieve_version_infos,
  model_offset, initial_number,
}

first_items_lem :
    {A : Type 0} (n : ℕ) (xs : List A)
    → first_items n xs ≡ (if leb n (length xs) then some (take n xs) else none)
unfolding first_items
first_items_lem zero xs = ground arith
first_items_lem (suc n) [] = ground arith
first_items_lem (suc n) (x ∷ xs) = rw (first_items_lem n xs) (ground arith)

slice_lem :
    {A : Type 0} (n count : ℕ) (xs spare : List A)
    → 0 < count
    → slice (pos n) count xs spare ≡ (
        if leb n (length xs) && leb (n + count) (length xs + length spare)
        then some (take count (drop n xs ++ spare))
        else none)
unfolding slice
slice_lem n count xs spare h = ground (
  arith,
  first_items_lem count (drop n xs ++ spare),
  length-append (drop n xs) spare,
  length-drop n xs,
)

-- One result for each item, where there is no error.
retrieve_each-length :
    {S A R : Type 0} (f : A → M S R) (status : Error → Status) (xs : List A) (found out : List R)
    (s s' : S)
    → retrieve_each f status xs found s ≡ (answers out, s')
    → length out ≡ length found + length xs
unfolding retrieve_each
retrieve_each-length f status [] found out s s' h = ground (arith, h)
retrieve_each-length f status (x ∷ xs) found out s s' h = elim (Reply-cases (f x s)) [
  | inr (e, s1, failed) ↦ let h' = rw failed at h in absurd (ground (arith, h'))
  | inl (r, s1, got) ↦
      let h' = rw got at h in
      omega (
        arith,
        retrieve_each-length f status xs (found ++ r ∷ []) out s1 s' h',
        length-append found (r ∷ []),
      )
]

model_offset-format_int : (n : ℕ) → n < 2 ^ 63 → model_offset (format_int (pos n)) ≡ some (pos n)
model_offset-format_int n h =
    let (c, rest, e) = format_int_cons n in
    let parsed : parse_int (c ∷ rest) ≡ some (pos n) =
      subst (λ text. parse_int text ≡ some (pos n)) e (parse-format_int n h) in
    subst (λ text. model_offset text ≡ some (pos n)) (sym e) parsed

initial_number-format_uint : (n : ℕ) → n < 2 ^ 64 → initial_number (format_uint n) ≡ some n
initial_number-format_uint n h =
    let (c, rest, e) = format_uint_cons n in
    let parsed : parse_uint (c ∷ rest) ≡ some n =
      subst (λ text. parse_uint text ≡ some n) e (parse-format_uint n h) in
    subst (λ text. initial_number text ≡ some n) (sym e) parsed

wrapped : (n : ℕ) → n + 1 < uint_mod → (n + 1) % uint_mod ≡ n + 1
wrapped n h = omega arith

then_reply-answers :
    {S A R : Type 0} (o : Outcome A × S) (f : A → R) {r : R} {s' : S}
    → then_reply o f ≡ (answers r, s')
    → (a : A) × (o ≡ (answers a, s')) × (r ≡ f a)
then_reply-answers (answers a, s) f h = (a, ground arith, ground arith)
then_reply-answers (fails e, s) f h = absurd (ground arith)
then_reply-answers (panics, s) f h = absurd (ground arith)

advanced :
    (n count k : ℕ) → k ≡ count → n + count < 2 ^ 63 → advance_offset (pos n) k ≡ pos (n + count)
advanced n count k same small = ground arith

module _ {S : Type 0} (b : Backend S) where
  models_beyond :
      (id : String) (ids spare : List String) (count n : ℕ) (s : S)
      → 0 < count
      → (length (id ∷ ids) < n) ⊎ (length (id ∷ ids) + length spare < n + count)
      → retrieve_models_from b true (some (pos n)) (id ∷ ids) spare count s ≡ (panics, s)
  models_beyond id ids spare count n s positive beyond =
      let nothing : slice (pos n) count (id ∷ ids) spare ≡ none =
        slice_lem n count (id ∷ ids) spare positive ∙ ground (arith, beyond) in
      rw nothing refl

  versions_beyond :
      (id : String) (n m : ℕ) (spare : List ℤ) (s : S)
      → 1 < m
      → retrieve_versions_from b true id (some m) (pos n ∷ []) spare 0 s ≡ (panics, s)
  unfolding slice
  versions_beyond id n m spare s beyond = ground arith

  -- A request for `count` of the listed models from the index `n` on stops the process if the index is
  -- beyond the ids, or if the capacity of their slice is below the index of the last.
  pub retrieve_models-panics :
      (id : String) (ids spare : List String) (count n : ℕ) (s : S)
      → 0 < count
      → n < 2 ^ 63
      → (length (id ∷ ids) < n) ⊎ (length (id ∷ ids) + length spare < n + count)
      → retrieve_models b true (id ∷ ids) spare count (format_int (pos n)) s ≡ (panics, s)
  retrieve_models-panics id ids spare count n s positive small beyond =
      unfold retrieve_models in
      subst (λ offset. retrieve_models_from b true offset (id ∷ ids) spare count s ≡ (panics, s))
        (sym (model_offset-format_int n small))
        (models_beyond id ids spare count n s positive beyond)

  -- A successful request for `count` of the listed models from the index `n` on answers with exactly
  -- that many, its handle stands for the index after them, and the ids with what lies beyond them up to
  -- the capacity of their slice are so many.
  pub retrieve_models-next :
      (id : String) (ids spare : List String) (count n : ℕ) (page : ModelsPage) (s s' : S)
      → 0 < count
      → n + count < 2 ^ 63
      → retrieve_models b true (id ∷ ids) spare count (format_int (pos n)) s ≡ (answers page, s')
      → (n ≤ length (id ∷ ids))
        × (n + count ≤ length (id ∷ ids) + length spare)
        × (length page.model_infos ≡ count)
        × (model_offset page.next_model_handle ≡ some (pos (n + count)))
  retrieve_models-next id ids spare count n page s s' positive small answered =
      let from : retrieve_models_from b true (some (pos n)) (id ∷ ids) spare count s
          ≡ (answers page, s') =
        subst
          (λ offset.
            retrieve_models_from b true offset (id ∷ ids) spare count s ≡ (answers page, s'))
          (model_offset-format_int n (omega arith)) (unfold retrieve_models in answered) in
      elim (Bool-cases
        (leb n (length (id ∷ ids)) && leb (n + count) (length (id ∷ ids) + length spare))) [
          | inr beyond ↦
              let nothing : slice (pos n) count (id ∷ ids) spare ≡ none =
                slice_lem n count (id ∷ ids) spare positive ∙ ground (arith, beyond) in
              let from' = rw nothing at from in absurd (ground (arith, from'))
          | inl inside ↦
              let listed : List String = take count (drop n (id ∷ ids) ++ spare) in
              let chosen : slice (pos n) count (id ∷ ids) spare ≡ some listed =
                slice_lem n count (id ∷ ids) spare positive ∙ ground (arith, inside) in
              let (infos, found, built) =
                then_reply-answers
                  (retrieve_each b.retrieve_model_info unknown_model_status listed [] s)
                  (models_page (pos n)) (rw chosen at from) in
              let enough : count ≤ length (drop n (id ∷ ids) ++ spare) = ground (
                arith,
                inside,
                length-append (drop n (id ∷ ids)) spare,
                length-drop n (id ∷ ids),
              ) in
              let many : length infos ≡ count =
                retrieve_each-length b.retrieve_model_info unknown_model_status listed [] infos s s'
                  found
                ∙ omega (arith, length-take_le count (drop n (id ∷ ids) ++ spare) enough) in
              (
                ground (arith, inside),
                ground (arith, inside),
                ap (λ p. length p.model_infos) built ∙ many,
                ap (λ p. model_offset p.next_model_handle) built
                    ∙ ap (λ offset. model_offset (format_int offset))
                        (advanced n count (length infos) many small)
                    ∙ model_offset-format_int (n + count) small,
              )
        ]

  first_version :
      (id : String) (n : ℕ) (spare : List ℤ) (info : VersionInfo) (s s' : S)
      → b.retrieve_model_version_info id (pos n) s ≡ (ok info, s')
      → retrieve_version_infos b true id (pos n ∷ []) spare 0 [] s ≡ (
        answers (record {
          version_infos = make_pb_model_version_info info ∷ [];
          next_version_handle = format_uint ((info.version_number + 1) % uint_mod);
        }),
        s',
      )
  unfolding retrieve_version_infos
  first_version id n spare info s s' answered = rw answered refl

  -- A request for the information of one version by its number answers, on success, with a handle
  -- that stops the process when it is used to ask on.
  pub retrieve_version_infos-next :
      (id : String) (n : ℕ) (spare : List ℤ) (info : VersionInfo) (s s' : S)
      → 0 < n
      → n + 1 < uint_mod
      → b.retrieve_model_version_info id (pos n) s ≡ (ok info, s')
      → info.version_number ≡ n
      → (page : VersionsPage) × (retrieve_version_infos b true id (pos n ∷ []) spare 0 [] s
          ≡ (answers page, s'))
        × (page.version_infos ≡ make_pb_model_version_info info ∷ [])
        × (retrieve_version_infos b true id (pos n ∷ []) spare 0 page.next_version_handle s'
            ≡ (panics, s'))
  retrieve_version_infos-next id n spare info s s' positive small answered numbered = (
    record {
      version_infos = make_pb_model_version_info info ∷ [];
      next_version_handle = format_uint ((info.version_number + 1) % uint_mod);
    },
    first_version id n spare info s s' answered,
    refl,
    rw (numbered, wrapped n small)
        (unfold retrieve_version_infos in
          subst
            (λ number.
              retrieve_versions_from b true id number (pos n ∷ []) spare 0 s' ≡ (panics, s'))
            (sym (initial_number-format_uint (n + 1) (omega arith)))
            (versions_beyond id n (n + 1) spare s' (omega arith))),
  )
