-- ===== src/Gateway/Tasks/Links.antt =====
-- apps/openlive-gateway/src/session_state.rs, lines 391 to 436: evidence links, indexed from both of
-- their ends.
use openlive.Common.{
  ℕ, ◌≡◌, ◌⊎◌, inl, inr, ◌↔◌, refl, sym, ap, ◌∙◌, Bool, true, false, ◌&&◌, List, [], ◌∷◌, ◌++◌, map,
  arith, ◌==◌, if◌then◌else◌, any, In, ℕ_discrete, Bool-cases, ==_iff,
}
use mathlib.Core.Path.{subst₂}
use openlive.Common.Float.{Float}
use openlive.Common.Map.{lookup, insert, lookup-insert}
use openlive.Protocol.Task.{EvidenceLinkType, EvidenceLink, task_proof, task_context, task_failure}
use openlive.Gateway.Tasks.{StoredEvidenceLink, TaskOrchestrator, unwrap_or}
use openlive.Gateway.Tasks.Operations.{new, evidence_for, tasks_for_evidence}

abbrev same_type : EvidenceLinkType → EvidenceLinkType → Bool
same_type task_proof task_proof = true
same_type task_context task_context = true
same_type task_failure task_failure = true
same_type _ _ = false

module _ (F : Float) where
  open F use {feq}

  -- The derived `==` of two stored links, confidence included.
  abbrev pub stored_eq : StoredEvidenceLink F → StoredEvidenceLink F → Bool
  stored_eq a b =
      (a.source_id == b.source_id && a.target_id == b.target_id)
      && (same_type a.link_type b.link_type && feq a.confidence b.confidence)

  abbrev pub stored : EvidenceLink F → StoredEvidenceLink F
  stored link = record {
    source_id = link.source_id;
    target_id = link.target_id;
    link_type = link.link_type;
    confidence = link.confidence;
  }

  abbrev pub links_from : TaskOrchestrator F → ℕ → List (StoredEvidenceLink F)
  links_from s k = unwrap_or (lookup ℕ_discrete k s.links_by_source) []

  abbrev pub links_to : TaskOrchestrator F → ℕ → List (StoredEvidenceLink F)
  links_to s k = unwrap_or (lookup ℕ_discrete k s.links_by_target) []

  unfoldable pub add_link : TaskOrchestrator F → StoredEvidenceLink F → TaskOrchestrator F
  add_link s l = record s {
    links_by_source =
        insert ℕ_discrete l.source_id (links_from s l.source_id ++ l ∷ []) s.links_by_source;
    links_by_target =
        insert ℕ_discrete l.target_id (links_to s l.target_id ++ l ∷ []) s.links_by_target;
  }

  unfoldable pub link_evidence : TaskOrchestrator F → EvidenceLink F → TaskOrchestrator F × Bool
  link_evidence s link =
      if any (λ l. stored_eq l (stored link)) (links_from s link.source_id)
      then (s, false)
      else (add_link s (stored link), true)

  -- The links in both indexes are the same ones, each filed under its own ends.
  record Mirrors (s : TaskOrchestrator F) : Type 0 where
    from_source : (k : ℕ) (l : StoredEvidenceLink F) → In l (links_from s k) → l.source_id ≡ k
    to_target : (k : ℕ) (l : StoredEvidenceLink F) → In l (links_to s k) → l.target_id ≡ k
    forward :
        (k : ℕ) (l : StoredEvidenceLink F) → In l (links_from s k) → In l (links_to s l.target_id)
    backward :
        (k : ℕ) (l : StoredEvidenceLink F) → In l (links_to s k) → In l (links_from s l.source_id)

  In-snoc :
      (l x : StoredEvidenceLink F) (xs : List (StoredEvidenceLink F))
      → In l (xs ++ x ∷ [])
      → In l xs ⊎ (l ≡ x)
  In-snoc l x [] h = ground arith
  In-snoc l x (y ∷ xs) (inl e) = inl (inl e)
  In-snoc l x (y ∷ xs) (inr h) = elim (In-snoc l x xs h) [ inl i ↦ inl (inr i) | inr e ↦ inr e ]

  In-snoc_old :
      (l x : StoredEvidenceLink F) (xs : List (StoredEvidenceLink F))
      → In l xs
      → In l (xs ++ x ∷ [])
  In-snoc_old l x [] h = absurd h
  In-snoc_old l x (y ∷ xs) (inl e) = inl e
  In-snoc_old l x (y ∷ xs) (inr h) = inr (In-snoc_old l x xs h)

  In-snoc_new :
      (l x : StoredEvidenceLink F) (xs : List (StoredEvidenceLink F)) → l ≡ x → In l (xs ++ x ∷ [])
  In-snoc_new l x [] e = inl e
  In-snoc_new l x (y ∷ xs) e = inr (In-snoc_new l x xs e)

  links_from-add_link :
      (s : TaskOrchestrator F) (l : StoredEvidenceLink F) (k : ℕ)
      → links_from (add_link s l) k
        ≡ (if l.source_id == k then links_from s k ++ l ∷ [] else links_from s k)
  unfolding add_link
  links_from-add_link s l k = ground (
    arith,
    lookup-insert ℕ_discrete l.source_id k (links_from s l.source_id ++ l ∷ []) s.links_by_source,
  )

  links_to-add_link :
      (s : TaskOrchestrator F) (l : StoredEvidenceLink F) (k : ℕ)
      → links_to (add_link s l) k
        ≡ (if l.target_id == k then links_to s k ++ l ∷ [] else links_to s k)
  unfolding add_link
  links_to-add_link s l k = ground (
    arith,
    lookup-insert ℕ_discrete l.target_id k (links_to s l.target_id ++ l ∷ []) s.links_by_target,
  )

  module _ (s : TaskOrchestrator F) (x l : StoredEvidenceLink F) (k : ℕ) where
    In-links_from :
        In l (links_from (add_link s x) k) → In l (links_from s k) ⊎ ((x.source_id ≡ k) × (l ≡ x))
    In-links_from h = elim (Bool-cases (x.source_id == k)) [
      | inl e ↦
          let i = rw (links_from-add_link s x k, e) at h in
          elim (In-snoc l x (links_from s k) i) [
            | inl old ↦ inl old
            | inr same ↦ inr (ground arith, same)
          ]
      | inr e ↦ inl (rw (links_from-add_link s x k, e) at h)
    ]

    In-links_to :
        In l (links_to (add_link s x) k) → In l (links_to s k) ⊎ ((x.target_id ≡ k) × (l ≡ x))
    In-links_to h = elim (Bool-cases (x.target_id == k)) [
      | inl e ↦
          let i = rw (links_to-add_link s x k, e) at h in
          elim (In-snoc l x (links_to s k) i) [
            | inl old ↦ inl old
            | inr same ↦ inr (ground arith, same)
          ]
      | inr e ↦ inl (rw (links_to-add_link s x k, e) at h)
    ]

    links_from_old : In l (links_from s k) → In l (links_from (add_link s x) k)
    links_from_old h = elim (Bool-cases (x.source_id == k)) [
      | inl e ↦ rw (links_from-add_link s x k, e) (In-snoc_old l x (links_from s k) h)
      | inr e ↦ rw (links_from-add_link s x k, e) h
    ]

    links_to_old : In l (links_to s k) → In l (links_to (add_link s x) k)
    links_to_old h = elim (Bool-cases (x.target_id == k)) [
      | inl e ↦ rw (links_to-add_link s x k, e) (In-snoc_old l x (links_to s k) h)
      | inr e ↦ rw (links_to-add_link s x k, e) h
    ]

    links_from_new : x.source_id ≡ k → l ≡ x → In l (links_from (add_link s x) k)
    links_from_new e same =
        rw (links_from-add_link s x k, (==_iff _ _).1 e) (In-snoc_new l x (links_from s k) same)

    links_to_new : x.target_id ≡ k → l ≡ x → In l (links_to (add_link s x) k)
    links_to_new e same =
        rw (links_to-add_link s x k, (==_iff _ _).1 e) (In-snoc_new l x (links_to s k) same)

  add_link-Mirrors :
      (s : TaskOrchestrator F) (x : StoredEvidenceLink F) → Mirrors s → Mirrors (add_link s x)
  add_link-Mirrors s x m = record {
    from_source = λ k l h. elim (In-links_from s x l k h) [
      | inl old ↦ m.from_source k l old
      | inr (e, same) ↦ ap (λ y. y.source_id) same ∙ e
    ];
    to_target = λ k l h. elim (In-links_to s x l k h) [
      | inl old ↦ m.to_target k l old
      | inr (e, same) ↦ ap (λ y. y.target_id) same ∙ e
    ];
    forward = λ k l h. elim (In-links_from s x l k h) [
      | inl old ↦ links_to_old s x l l.target_id (m.forward k l old)
      | inr (e, same) ↦ links_to_new s x l l.target_id (sym (ap (λ y. y.target_id) same)) same
    ];
    backward = λ k l h. elim (In-links_to s x l k h) [
      | inl old ↦ links_from_old s x l l.source_id (m.backward k l old)
      | inr (e, same) ↦ links_from_new s x l l.source_id (sym (ap (λ y. y.source_id) same)) same
    ];
  }

  link_evidence-Mirrors :
      (s : TaskOrchestrator F) (l : EvidenceLink F) → Mirrors s → Mirrors (link_evidence s l).0
  unfolding link_evidence
  link_evidence-Mirrors s l m =
      elim (Bool-cases (any (λ x. stored_eq x (stored l)) (links_from s l.source_id))) [
        | inl known ↦ rw (known, link_evidence) m
        | inr fresh ↦ rw (fresh, link_evidence) (add_link-Mirrors s (stored l) m)
      ]

  -- The state after a history of links, newest first.
  unfoldable pub linked : List (EvidenceLink F) → TaskOrchestrator F
  unfolding link_evidence
  linked [] = new F
  linked (l ∷ ls) = (link_evidence (linked ls) l).0

  linked-Mirrors : (ls : List (EvidenceLink F)) → Mirrors (linked ls)
  unfolding linked new lookup
  linked-Mirrors [] = record {
    from_source = λ k l h. absurd h;
    to_target = λ k l h. absurd h;
    forward = λ k l h. absurd h;
    backward = λ k l h. absurd h;
  }
  linked-Mirrors (l ∷ ls) = link_evidence-Mirrors (linked ls) l (linked-Mirrors ls)

  In-targets :
      (a : ℕ) (ls : List (StoredEvidenceLink F))
      → In a (map (λ l. l.target_id) ls)
      → (l : StoredEvidenceLink F) × In l ls × (l.target_id ≡ a)
  In-targets a [] h = absurd h
  In-targets a (l ∷ ls) (inl e) = (l, inl refl, sym e)
  In-targets a (l ∷ ls) (inr h) = let (x, i, e) = In-targets a ls h in (x, inr i, e)

  In-sources :
      (a : ℕ) (ls : List (StoredEvidenceLink F))
      → In a (map (λ l. l.source_id) ls)
      → (l : StoredEvidenceLink F) × In l ls × (l.source_id ≡ a)
  In-sources a [] h = absurd h
  In-sources a (l ∷ ls) (inl e) = (l, inl refl, sym e)
  In-sources a (l ∷ ls) (inr h) = let (x, i, e) = In-sources a ls h in (x, inr i, e)

  map-In :
      (f : StoredEvidenceLink F → ℕ) (l : StoredEvidenceLink F) (ls : List (StoredEvidenceLink F))
      → In l ls
      → In (f l) (map f ls)
  map-In f l [] h = absurd h
  map-In f l (x ∷ ls) (inl e) = inl (ap f e)
  map-In f l (x ∷ ls) (inr h) = inr (map-In f l ls h)

  -- After any links, an evidence id is found from a task exactly when the task is found from the
  -- evidence id: the two indexes agree.
  pub evidence_for_iff :
      (ls : List (EvidenceLink F)) (task evidence : ℕ)
      → In evidence (evidence_for F (linked ls) task)
        ↔ In task (tasks_for_evidence F (linked ls) evidence)
  unfolding evidence_for tasks_for_evidence
  evidence_for_iff ls task evidence =
      let s = linked ls in
      let m = linked-Mirrors ls in
      (
        λ h.
            let (l, i, e) = In-targets evidence (links_from s task) h in
            subst₂ (λ t v. In t (map (λ x. x.source_id) (links_to s v))) (m.from_source task l i) e
              (map-In (λ x. x.source_id) l (links_to s l.target_id) (m.forward task l i)),
        λ h.
            let (l, i, e) = In-sources task (links_to s evidence) h in
            subst₂ (λ t v. In v (map (λ x. x.target_id) (links_from s t))) e
              (m.to_target evidence l i)
              (map-In (λ x. x.target_id) l (links_from s l.source_id) (m.backward evidence l i)),
      )

  -- A link between the same ends and of the same type is recorded a second time if it is the first
  -- link again with a confidence that does not equal the first one's.
  pub relinked_confidence :
      (l : EvidenceLink F) (confidence : F.F32)
      → feq l.confidence confidence ≡ false
      → evidence_for F (linked (record l { confidence = confidence } ∷ l ∷ [])) l.source_id
        ≡ l.target_id ∷ l.target_id ∷ []
  unfolding linked new lookup insert evidence_for add_link
  relinked_confidence l confidence h = ground (arith, h)
