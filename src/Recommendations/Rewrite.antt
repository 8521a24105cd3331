-- ===== src/Recommendations/Rewrite.antt =====
-- backend/app/recommendations/query_rewrite.py: a rewrite is recommended only where it is equivalent.
use ai_driven_autonomous_no.Prelude.{
  ℕ, suc, ◌≡◌, refl, sym, ap, ◌∙◌, ◌⊎◌, inl, inr, String, Bool, true, false, not, ◌&&◌, List, [],
  ◌∷◌, ◌++◌, all, map, length, ◌==◌, str_eq, eq_iff, and_true, arith, if◌then◌else◌, Bool-cases,
}

pub data QueryRewriteStatus : Type 0 where
  recommended rejected_safety_invariant : QueryRewriteStatus

pub record ResultDocument : Type 0 where
  pub document_identity : String
  pub canonical_hash : String

pub record QueryResult : Type 0 where
  pub documents : List ResultDocument
  pub ordering_required : Bool

pub record QueryRewriteRecommendation : Type 0 where
  pub status : QueryRewriteStatus
  pub proposed_rewrite : String
  pub reason_codes : List String

-- `ResultDocument.from_document`, of the digest and the JSON dump of a document.
unfoldable pub from_document :
    {D : Type 0} → (String → String) → (D → String) → String → D → ResultDocument
from_document sha256 dumps identity document = record {
  document_identity = identity;
  canonical_hash = sha256 (dumps document);
}

-- Counter(items)[item]
unfoldable pub count : String → List String → ℕ
count item [] = 0
count item (x ∷ items) = let rest = count item items in if str_eq item x then suc rest else rest

-- Counters are equal when they have equal counts for the items of both.
unfoldable pub same_counts : List String → List String → Bool
unfolding count
same_counts xs ys = all (λ item. count item xs == count item ys) (xs ++ ys)

abbrev same_bool : Bool → Bool → Bool
same_bool true b = b
same_bool false b = not b

unfoldable pub same_documents : List ResultDocument → List ResultDocument → Bool
same_documents [] [] = true
same_documents (x ∷ xs) (y ∷ ys) =
    let rest = same_documents xs ys in
    str_eq x.document_identity y.document_identity
    && (str_eq x.canonical_hash y.canonical_hash && rest)
same_documents _ _ = false

abbrev pub identities : QueryResult → List String
identities r = map (λ d. d.document_identity) r.documents

abbrev pub hashes : QueryResult → List String
hashes r = map (λ d. d.canonical_hash) r.documents

-- The two last tests of `_equivalence_mismatches`, and all of them.
unfoldable pub ordering_mismatches : QueryResult → QueryResult → List String
unfolding same_documents
ordering_mismatches baseline sandbox =
    if not (same_bool baseline.ordering_required sandbox.ordering_required)
    then "ORDERING_SEMANTICS_MISMATCH" ∷ []
    else if baseline.ordering_required && not (same_documents baseline.documents sandbox.documents)
    then "ORDERING_MISMATCH" ∷ []
    else []

unfoldable pub equivalence_mismatches : QueryResult → QueryResult → List String
unfolding same_counts ordering_mismatches
equivalence_mismatches baseline sandbox =
    (if length baseline.documents == length sandbox.documents then [] else "COUNT_MISMATCH" ∷ [])
    ++ ((if same_counts (identities baseline) (identities sandbox)
          then []
          else "DOCUMENT_IDENTITY_MISMATCH" ∷ [])
        ++ ((if same_counts (hashes baseline) (hashes sandbox)
              then []
              else "CANONICAL_HASH_MISMATCH" ∷ [])
            ++ ordering_mismatches baseline sandbox))

abbrev pub rewrite_advice : String → List String → QueryRewriteRecommendation
rewrite_advice rewrite [] = record {
  status = recommended;
  proposed_rewrite = rewrite;
  reason_codes = [];
}
rewrite_advice rewrite (m ∷ mismatches) = record {
  status = rejected_safety_invariant;
  proposed_rewrite = rewrite;
  reason_codes = m ∷ mismatches;
}

unfoldable pub recommend_rewrite : String → QueryResult → QueryResult → QueryRewriteRecommendation
unfolding equivalence_mismatches
recommend_rewrite rewrite baseline sandbox =
    rewrite_advice rewrite (equivalence_mismatches baseline sandbox)

all-append :
    (test : String → Bool) (xs ys : List String)
    → all test (xs ++ ys) ≡ true
    → (all test xs ≡ true) × (all test ys ≡ true)
all-append test [] ys h = (refl, h)
all-append test (x ∷ xs) ys h =
    let (l, r) = all-append test xs ys (ground arith) in (ground arith, r)

-- A text that is not counted in a list, or passes what all of the list passes.
counted :
    (test : String → Bool) (xs : List String) (item : String)
    → all test xs ≡ true
    → (count item xs ≡ 0) ⊎ (test item ≡ true)
unfolding count
counted test [] item h = inl refl
counted test (x ∷ xs) item h =
    let (here, later) = and_true (test x) (all test xs) h in
    elim (Bool-cases (str_eq item x)) [
      | inl same ↦ inr (let e : item ≡ x = (eq_iff item x).0 same in ap test e ∙ here)
      | inr other ↦ rw other (counted test xs item later)
    ]

same_counts_everywhere :
    (xs ys : List String) (item : String) → same_counts xs ys ≡ true → count item xs ≡ count item ys
unfolding same_counts
same_counts_everywhere xs ys item h =
    let test = λ (i : String). count i xs == count i ys in
    let (first, second) = all-append test xs ys h in
    elim (counted test xs item first) [
      | inr same ↦ ground arith
      | inl none_first ↦ elim (counted test ys item second) [
        | inr same ↦ ground arith
        | inl none_second ↦ none_first ∙ sym none_second
      ]
    ]

same_documents-eq : (xs ys : List ResultDocument) → same_documents xs ys ≡ true → xs ≡ ys
unfolding same_documents
same_documents-eq [] [] h = refl
same_documents-eq [] (y ∷ ys) h = cc
same_documents-eq (x ∷ xs) [] h = cc
same_documents-eq (x ∷ xs) (y ∷ ys) h =
    let (e, rest) = and_true (str_eq x.document_identity y.document_identity) _ h in
    let (f, rest') = and_true (str_eq x.canonical_hash y.canonical_hash) _ rest in
    let tails = same_documents-eq xs ys rest' in
    let i = (eq_iff x.document_identity y.document_identity).0 e in
    let k = (eq_iff x.canonical_hash y.canonical_hash).0 f in cc

-- The results of two queries, as a client may compare them.
pub record IsEquivalent (baseline sandbox : QueryResult) : Type 0 where
  pub same_length : length baseline.documents ≡ length sandbox.documents
  pub same_identities :
      (item : String) → count item (identities baseline) ≡ count item (identities sandbox)
  pub same_hashes : (item : String) → count item (hashes baseline) ≡ count item (hashes sandbox)
  pub same_order : (baseline.ordering_required ≡ false) ⊎ (baseline.documents ≡ sandbox.documents)

flag_nil :
    (b : Bool) (s : String) (rest : List String)
    → (if b then [] else s ∷ []) ++ rest ≡ []
    → (b ≡ true) × (rest ≡ [])
flag_nil true s rest h = (refl, h)
flag_nil false s rest h = cc

order_nil :
    (baseline sandbox : QueryResult)
    → ordering_mismatches baseline sandbox ≡ []
    → (baseline.ordering_required ≡ false) ⊎ (baseline.documents ≡ sandbox.documents)
unfolding ordering_mismatches
order_nil baseline sandbox h = elim (Bool-cases baseline.ordering_required) [
  | inr free ↦ inl free
  | inl strict ↦ elim (Bool-cases (same_documents baseline.documents sandbox.documents)) [
    | inl same ↦ inr (same_documents-eq _ _ same)
    | inr other ↦ absurd (ground arith)
  ]
]

equivalence_mismatches-IsEquivalent :
    (baseline sandbox : QueryResult)
    → equivalence_mismatches baseline sandbox ≡ []
    → IsEquivalent baseline sandbox
unfolding equivalence_mismatches
equivalence_mismatches-IsEquivalent baseline sandbox h =
    let (lengths, h₁) = flag_nil (length baseline.documents == length sandbox.documents) _ _ h in
    let (ids, h₂) = flag_nil (same_counts (identities baseline) (identities sandbox)) _ _ h₁ in
    let (hs, h₃) = flag_nil (same_counts (hashes baseline) (hashes sandbox)) _ _ h₂ in
    record {
      same_length = ground arith;
      same_identities = λ item. same_counts_everywhere _ _ item ids;
      same_hashes = λ item. same_counts_everywhere _ _ item hs;
      same_order = order_nil baseline sandbox h₃;
    }

rewrite_advice-IsEquivalent :
    (rewrite : String) (baseline sandbox : QueryResult) (mismatches : List String)
    → equivalence_mismatches baseline sandbox ≡ mismatches
    → ((rewrite_advice rewrite mismatches).status ≡ rejected_safety_invariant)
      ⊎ IsEquivalent baseline sandbox
rewrite_advice-IsEquivalent rewrite baseline sandbox [] h =
    inr (equivalence_mismatches-IsEquivalent baseline sandbox h)
rewrite_advice-IsEquivalent rewrite baseline sandbox (m ∷ rest) h = inl refl

-- A rewrite is rejected, or its sandbox result has as many documents as the baseline, the same count of
-- every identity and of every canonical hash, and where the baseline is ordered, the same documents in
-- the same order.
pub recommend_rewrite-IsEquivalent :
    (rewrite : String) (baseline sandbox : QueryResult)
    → ((recommend_rewrite rewrite baseline sandbox).status ≡ rejected_safety_invariant)
      ⊎ IsEquivalent baseline sandbox
unfolding recommend_rewrite
recommend_rewrite-IsEquivalent rewrite baseline sandbox =
    rewrite_advice-IsEquivalent rewrite baseline sandbox _ refl
