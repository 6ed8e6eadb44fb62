-- ===== src/Tools/Schema/Conforming.antt =====
-- Calls that conform to the definitions.
use legallens.Prelude.{
  ℕ, zero, suc, ◌≡◌, refl, ap, ◌∙◌, subst, Bool, true, false, ◌&&◌, ◌||◌, not, List, [], ◌∷◌, Text,
  text_eq, nat_eq, Option, some, none, ok, arith, is_some, get_elem?, Option-cases, inl, inr,
}
use legallens.Prelude.Dict.{Dict, lookup}
use legallens.Tools.Schema.{
  Parameter, ToolDefinition, tool_definitions, tool_registry, extract_clauses_definition,
  search_similar_clauses_definition, score_clause_risk_definition, Argument, Signature, known,
  or_default, bind_each, bind_with, bind_tool, has_type, well_typed, complete,
}

-- The values are of the types of the parameters, one for each.
abbrev pub typed : Dict Text Parameter → List Argument → Bool
typed [] [] = true
typed [] (v ∷ vs) = false
typed ((k, p) ∷ ps) [] = false
typed ((k, p) ∷ ps) (v ∷ vs) = has_type p.type v && typed ps vs

-- A parameter without a default is required, and a default is of the declared type.
abbrev DefaultFits : Parameter → Option Argument → Type 0
DefaultFits p none = p.required ≡ true
DefaultFits p (some v) = has_type p.type v ≡ true

-- A signature has the parameters of a definition, which are among `all`.
abbrev Agrees : Dict Text Parameter → Signature → Dict Text Parameter → Type 0
Agrees all [] [] = Unit
Agrees all [] (_ ∷ ps) = true ≡ false
Agrees all (_ ∷ sig) [] = true ≡ false
Agrees all ((k, default) ∷ sig) ((j, p) ∷ ps) =
    (j ≡ k) × (lookup k all ≡ some p) × DefaultFits p default × Agrees all sig ps

lookup-well_typed :
    (all : Dict Text Parameter) (arguments : Dict Text Argument) (k : Text) (v : Argument)
    (p : Parameter)
    → well_typed all arguments ≡ true
    → lookup k all ≡ some p
    → lookup k arguments ≡ some v
    → has_type p.type v ≡ true
unfolding lookup
lookup-well_typed all [] k v p w l h = cc
lookup-well_typed all ((j, u) ∷ arguments) k v p w l h =
    ground (arith, lookup-well_typed all arguments k v p)

module _ (all : Dict Text Parameter) (arguments : Dict Text Argument)
    (w : well_typed all arguments ≡ true) where
  bound_value :
      (k : Text) (p : Parameter) (default : Option Argument)
      → lookup k all ≡ some p
      → DefaultFits p default
      → (not p.required || is_some (lookup k arguments)) ≡ true
      → (v : Argument) × (or_default (lookup k arguments) default ≡ ok v)
        × (has_type p.type v ≡ true)
  bound_value k p default l f c = elim (Option-cases (lookup k arguments)) [
    | inr (v, there) ↦ (v, rw there refl, lookup-well_typed all arguments k v p w l there)
    | inl absent ↦ by_default default f (rw absent at c) absent
  ]
    where
      by_default :
          (default : Option Argument)
          → DefaultFits p default
          → (not p.required || false) ≡ true
          → lookup k arguments ≡ none
          → (v : Argument) × (or_default (lookup k arguments) default ≡ ok v)
            × (has_type p.type v ≡ true)
      by_default none required c absent = absurd (ground (arith, required, c))
      by_default (some v) t c absent = (v, rw absent refl, t)

  bind_each-typed :
      (sig : Signature) (ps : Dict Text Parameter)
      → Agrees all sig ps
      → complete ps arguments ≡ true
      → (vs : List Argument) × (bind_each sig arguments ≡ ok vs) × (typed ps vs ≡ true)
  bind_each-typed [] [] a c = ([], refl, refl)
  bind_each-typed [] (_ ∷ ps) a c = cc
  bind_each-typed (_ ∷ sig) [] a c = cc
  bind_each-typed ((k, default) ∷ sig) ((j, p) ∷ ps) a c =
      let here : (not p.required || is_some (lookup k arguments)) ≡ true =
        rw (← a.0) (ground arith) in
      let (v, bound, t) = bound_value k p default a.1 a.2 here in
      let (vs, rest, ts) = bind_each-typed sig ps a.3 (ground arith) in
      (v ∷ vs, rw (bound, rest) refl, rw (t, ts) refl)

is_some-lookup :
    (all : Dict Text Parameter) (sig : Signature) (ps : Dict Text Parameter) (k : Text)
    → Agrees all sig ps
    → is_some (lookup k sig) ≡ is_some (lookup k ps)
unfolding lookup
is_some-lookup all [] [] k a = refl
is_some-lookup all [] (_ ∷ ps) k a = cc
is_some-lookup all (_ ∷ sig) [] k a = cc
is_some-lookup all ((i, default) ∷ sig) ((j, p) ∷ ps) k a =
    ground (arith, a.0, is_some-lookup all sig ps k a.3)

known-well_typed :
    (ps : Dict Text Parameter) (sig : Signature) (arguments : Dict Text Argument)
    → Agrees ps sig ps
    → well_typed ps arguments ≡ true
    → known sig arguments ≡ true
known-well_typed ps sig [] a w = refl
known-well_typed ps sig ((k, v) ∷ arguments) a w = elim (Option-cases (lookup k ps)) [
  | inl absent ↦ let no : well_typed ps ((k, v) ∷ arguments) ≡ false = rw absent refl in cc
  | inr (p, there) ↦
      rw (is_some-lookup ps sig ps k a, there)
        (known-well_typed ps sig arguments a (ground (arith, w, there)))
]

bind_tool-Agrees :
    (d : ToolDefinition) (sig : Signature) (arguments : Dict Text Argument)
    → lookup d.name tool_registry ≡ some sig
    → Agrees d.parameter_definitions sig d.parameter_definitions
    → well_typed d.parameter_definitions arguments ≡ true
    → complete d.parameter_definitions arguments ≡ true
    → (values : List Argument) × (bind_tool d.name arguments ≡ ok values)
      × (typed d.parameter_definitions values ≡ true)
unfolding bind_tool
bind_tool-Agrees d sig arguments found a w c =
    let ps = d.parameter_definitions in
    let (values, bound, t) = bind_each-typed ps arguments w sig ps a c in
    (
      values,
      ap (λ o. bind_with o arguments) found ∙ rw (known-well_typed ps sig arguments a w) bound,
      t,
    )

-- The function of a definition has its parameters.
abbrev Registered : ToolDefinition → Type 0
Registered d =
    (sig : Signature) × (lookup d.name tool_registry ≡ some sig)
    × Agrees d.parameter_definitions sig d.parameter_definitions

definition-Registered :
    (i : ℕ) (d : ToolDefinition) → get_elem? tool_definitions i ≡ some d → Registered d
unfolding lookup text_eq nat_eq has_type
definition-Registered zero d e =
    let same : extract_clauses_definition ≡ d = cc in
    subst Registered same (_, refl, (refl, refl, refl, (refl, refl, refl, tt)))
definition-Registered (suc zero) d e =
    let same : search_similar_clauses_definition ≡ d = cc in
    subst Registered same (_, refl, (refl, refl, refl, (refl, refl, refl, tt)))
definition-Registered (suc (suc zero)) d e =
    let same : score_clause_risk_definition ≡ d = cc in
    subst Registered same (_, refl, (refl, refl, refl, tt))
definition-Registered (suc (suc (suc i))) d e = cc

-- Each tool that the model is shown is registered, and every call that conforms to its definition,
-- with all required parameters, with no other than declared ones and with values of the declared
-- types, is bound to the function's parameters: it gets a value of the declared type for each of them.
pub bind_tool-typed :
    (i : ℕ) (d : ToolDefinition) (arguments : Dict Text Argument)
    → get_elem? tool_definitions i ≡ some d
    → well_typed d.parameter_definitions arguments ≡ true
    → complete d.parameter_definitions arguments ≡ true
    → (values : List Argument) × (bind_tool d.name arguments ≡ ok values)
      × (typed d.parameter_definitions values ≡ true)
bind_tool-typed i d arguments e w c =
    let (sig, found, a) = definition-Registered i d e in
    bind_tool-Agrees d sig arguments found a w c
