-- ===== src/VectorStore/Pinecone/Opened.antt =====
-- What opening a managed index makes of the indexes.
use legallens.Prelude.{
  ℕ, ◌≡◌, refl, ap, sym, ◌∙◌, ◌⊎◌, inl, inr, true, false, Text, text_eq, Option, some, none,
  Outcome, ok, raise, Error, ◌==◌, ==_iff, eq_refl, contains, Bool-cases, Option-cases,
  Outcome-cases, if◌then◌else◌,
}
use legallens.VectorStore.Pinecone.{
  PineconeClient, PineconeIndex, created, open_listed, open_pinecone,
}

-- The dimension that is there, or a new one.
abbrev pub or_new : ℕ → Option ℕ → ℕ
or_new dimension none = dimension
or_new dimension (some d) = d

module _ {Vec Score Value : Type 0} (client : PineconeClient Vec Score Value) where
  open client use {Service, index_names, create_index, dimension_of}

  -- The index is there, with the dimension that it had or else with the one asked for, and the others
  -- are as they were.
  abbrev pub IsOpened : Text → ℕ → Service → Service → Type 0
  IsOpened name dimension s s' =
      (other_name : Text)
      → dimension_of other_name s' ≡ (
          if other_name == name
          then some (or_new dimension (dimension_of name s))
          else dimension_of other_name s)

  kept-IsOpened :
      (name : Text) (dimension d : ℕ) (s : Service)
      → dimension_of name s ≡ some d
      → IsOpened name dimension s s
  kept-IsOpened name dimension d s h other_name = elim (Bool-cases (other_name == name)) [
    | inl same ↦ rw same (rw ((==_iff other_name name).0 same, h) refl)
    | inr other ↦ rw other refl
  ]

  created-IsOpened :
      (name : Text) (dimension : ℕ) (s : Service)
      → dimension_of name s ≡ none
      → (create_index name dimension s).0 ≡ ok tt
      → IsOpened name dimension s (create_index name dimension s).1
  created-IsOpened name dimension s absent done other_name =
      client.dimension_of-create_index name dimension s other_name done ∙ rw absent refl

  -- How opening ends, by what is listed.
  open_pinecone_cases :
      (name : Text) (dimension : ℕ) (s : Service)
      → ((e : Error) × (open_pinecone client name dimension s ≡ (raise e, s)))
        ⊎ (((d : ℕ) × (dimension_of name s ≡ some d)
              × (open_pinecone client name dimension s ≡ (ok (record { index_name = name }), s)))
            ⊎ ((dimension_of name s ≡ none)
                × (open_pinecone client name dimension s
                    ≡ created client name (create_index name dimension s))))
  unfolding open_pinecone open_listed
  open_pinecone_cases name dimension s = elim (Outcome-cases (index_names s)) [
    | inr (e, failed) ↦ inl (e, rw (failed, open_listed) refl)
    | inl (names, listed) ↦
        let here = client.index_names-contains s names name listed in
        elim (Option-cases (dimension_of name s)) [
          | inr (d, there) ↦
              let found : contains names name ≡ true = rw there at here in
              inr (inl (d, there, rw (listed, open_listed, found) refl))
          | inl absent ↦
              let missing : contains names name ≡ false = rw absent at here in
              inr (inr (absent, rw (listed, open_listed, missing) refl))
        ]
  ]

  -- An index that is there is opened without a change, or opening raises.
  reopened :
      (name : Text) (dimension d : ℕ) (s : Service)
      → dimension_of name s ≡ some d
      → (open_pinecone client name dimension s).1 ≡ s
  reopened name dimension d s there = elim (open_pinecone_cases name dimension s) [
    | inl (e, failed) ↦ rw failed refl
    | inr (inl (_, _, found)) ↦ rw found refl
    | inr (inr (absent, _)) ↦ absurd (cc)
  ]

  -- What holds of an opening that returned.
  abbrev pub Opened : Text → ℕ → Service → Outcome PineconeIndex × Service → Type 0
  Opened name dimension s r =
      (r.0 ≡ ok (record { index_name = name }))
      × IsOpened name dimension s r.1
      × ((another : ℕ) → (open_pinecone client name another r.1).1 ≡ r.1)

  found-Opened :
      (name : Text) (dimension d : ℕ) (s : Service)
      → dimension_of name s ≡ some d
      → Opened name dimension s (ok (record { index_name = name }), s)
  found-Opened name dimension d s there =
      (refl, kept-IsOpened name dimension d s there, λ another. reopened name another d s there)

  created_cases :
      (name : Text) (r : Outcome (Unit {0}) × Service) (index : PineconeIndex)
      → (created client name r).0 ≡ ok index
      → (r.0 ≡ ok tt) × (created client name r ≡ (ok (record { index_name = name }), r.1))
  unfolding created
  created_cases name (ok _, s) index h = (refl, refl)
  created_cases name (raise e, s) index h = cc

  created-Opened :
      (name : Text) (dimension : ℕ) (s : Service) (index : PineconeIndex)
      → dimension_of name s ≡ none
      → (created client name (create_index name dimension s)).0 ≡ ok index
      → Opened name dimension s (created client name (create_index name dimension s))
  created-Opened name dimension s index absent returned =
      let s' = (create_index name dimension s).1 in
      let (done, new) = created_cases name (create_index name dimension s) index returned in
      let opened = created-IsOpened name dimension s absent done in
      let there : dimension_of name s' ≡ some dimension =
        opened name ∙ rw (eq_refl name, absent) refl in
      rw new (refl, opened, λ another. reopened name another dimension s' there)

  -- If opening an index returns, it is the index of that name, which has the dimension that it had
  -- before, whatever dimension is asked for, or the dimension asked for if it was not there; all other
  -- indexes are as they were; and to open it again, for any dimension, changes nothing.
  pub open_pinecone-Opened :
      (name : Text) (dimension : ℕ) (s : Service) (index : PineconeIndex)
      → (open_pinecone client name dimension s).0 ≡ ok index
      → Opened name dimension s (open_pinecone client name dimension s)
  open_pinecone-Opened name dimension s index returned =
      elim (open_pinecone_cases name dimension s) [
        | inl (e, failed) ↦ absurd (cc (ap (λ r. r.0) failed))
        | inr (inl (d, there, found)) ↦ rw found (found-Opened name dimension d s there)
        | inr (inr (absent, new)) ↦
            rw new
              (created-Opened name dimension s index absent (ap (λ r. r.0) (sym new) ∙ returned))
      ]
