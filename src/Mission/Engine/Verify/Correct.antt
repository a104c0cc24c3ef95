-- ===== src/Mission/Engine/Verify/Correct.antt =====
-- What DefaultMissionVerifier of cli/src/mission/mission-engine.ts demands of a Mission, said without
-- the order of its tests.
use ouroboros_runtime.Base.{
  Bool, true, false, not, ◌≡◌, refl, ap, Option-cases, ◌∙◌, ◌↔◌, Option, some, List, [], ◌∷◌, any,
  is_empty, contains, In, any-false, All-In, contains-In, In-contains, Bool-cases, inl, inr,
  if◌then◌else◌, arith, &&-true,
}
use ouroboros_runtime.Base.Text.{Text, text_eq}
use ouroboros_runtime.Mission.Contracts.{
  Mission, CapabilityInvocation, CapabilityContract, CriterionVerification, InvocationStatus,
  OwnerVerification, rejects,
}
use ouroboros_runtime.Mission.Engine.Verify.{
  refused, verify, is_settled, did_not_complete, is_verified, trusted_owners, counts,
  satisfied_criteria, lacks_owner,
}

-- An invocation of the list was positively verified by this owner.
pub IsTrusted : List CapabilityInvocation → Text → Type 0
IsTrusted invocations owner =
    (i : CapabilityInvocation) × (v : OwnerVerification) × In i invocations
    × (i.owner_verification ≡ some v)
    × (v.verified ≡ true)
    × (v.owner ≡ owner)

-- A typed verification of the criterion, by a trusted owner.
pub IsProven : Mission → List CapabilityInvocation → Text → Type 0
IsProven mission invocations criterion =
    (cv : CriterionVerification) × In cv mission.criterion_verifications
    × (cv.criterion_id ≡ criterion)
    × (cv.satisfied ≡ true)
    × IsTrusted invocations cv.source

module _ (resolve : Text → Option CapabilityContract) where
  pub record IsDone (i : CapabilityInvocation) : Type 0 where
    pub completed : i.status ≡ InvocationStatus.completed
    pub not_rejected : rejects i.owner_verification ≡ false
    pub contract : CapabilityContract
    pub known : resolve i.capability_id ≡ some contract
    pub owner_verified :
        contract.requires_owner_verification ≡ true → is_verified i.owner_verification ≡ true

  pub record IsVerified (mission : Mission) (invocations : List CapabilityInvocation) : Type 0 where
    pub some_invocation : is_empty invocations ≡ false
    pub all_done : (i : CapabilityInvocation) → In i invocations → IsDone i
    pub all_proven : (c : Text) → In c mission.acceptance_criteria → IsProven mission invocations c

IsTrusted-later :
    (i : CapabilityInvocation) (is' : List CapabilityInvocation) (owner : Text)
    → IsTrusted is' owner
    → IsTrusted (i ∷ is') owner
unfolding IsTrusted
IsTrusted-later i is' owner (k, v, m, e, w, o) = (k, v, inr m, e, w, o)

trusted_owners-IsTrusted :
    (is' : List CapabilityInvocation) (owner : Text)
    → In owner (trusted_owners is')
    → IsTrusted is' owner
unfolding trusted_owners IsTrusted
trusted_owners-IsTrusted [] owner h = elim h [ ]
trusted_owners-IsTrusted (i ∷ is') owner h = elim (Option-cases i.owner_verification) [
  | inl e ↦ IsTrusted-later i is' owner (trusted_owners-IsTrusted is' owner (simp e at h))
  | inr (v, e) ↦ elim (Bool-cases v.verified) [
    | inr w ↦ IsTrusted-later i is' owner (trusted_owners-IsTrusted is' owner (simp (e, w) at h))
    | inl w ↦ elim (simp (e, w) at h) [
      | inl o ↦ (i, v, inl refl, e, w, o)
      | inr m ↦ IsTrusted-later i is' owner (trusted_owners-IsTrusted is' owner m)
    ]
  ]
]

IsTrusted-trusted_owners :
    (is' : List CapabilityInvocation) (owner : Text)
    → IsTrusted is' owner
    → In owner (trusted_owners is')
unfolding trusted_owners IsTrusted
IsTrusted-trusted_owners [] owner (i, v, m, _, _, _) = elim m [ ]
IsTrusted-trusted_owners (j ∷ is') owner (i, v, inl same, e, w, o) =
    let e' : j.owner_verification ≡ some v =
      ap (λ (k : CapabilityInvocation). k.owner_verification) same ∙ e in
    simp (e', w) (inl o)
IsTrusted-trusted_owners (j ∷ is') owner (i, v, inr m, e, w, o) =
    let ih = IsTrusted-trusted_owners is' owner (i, v, m, e, w, o) in
    elim (Option-cases j.owner_verification) [
      | inl k ↦ simp k ih
      | inr (u, k) ↦ elim (Bool-cases u.verified) [
        | inl t ↦ simp (k, t) (inr ih)
        | inr f ↦ simp (k, f) ih
      ]
    ]

satisfied_criteria-In :
    (owners : List Text) (cvs : List CriterionVerification) (c : Text)
    → In c (satisfied_criteria owners cvs) ↔ (
        (cv : CriterionVerification) × In cv cvs
        × (cv.criterion_id ≡ c)
        × (counts owners cv ≡ true))
satisfied_criteria-In owners [] c = (λ h. elim h [ ], λ (cv, m, _, _). elim m [ ])
satisfied_criteria-In owners (cv ∷ cvs) c =
    let ih = satisfied_criteria-In owners cvs c in
    elim (Bool-cases (counts owners cv)) [
      | inl t ↦ (
        λ h. elim (simp t at h) [
          | inl e ↦ (cv, inl refl, e, t)
          | inr m ↦ let (d, m', e, k) = ih.0 m in (d, inr m', e, k)
        ],
        λ h. elim h.1 [
          | inl same ↦ simp t (inl (ap (λ (d : CriterionVerification). d.criterion_id) same ∙ h.2))
          | inr m ↦ simp t (inr (ih.1 (h.0, m, h.2, h.3)))
        ],
      )
      | inr f ↦ (
        λ h. let (d, m', e, k) = ih.0 (simp f at h) in (d, inr m', e, k),
        λ h. elim h.1 [
          | inl same ↦
              absurd (let k : counts owners cv ≡ true = ap (counts owners) same ∙ h.3 in cc (k, f))
          | inr m ↦ simp f (ih.1 (h.0, m, h.2, h.3))
        ],
      )
    ]

any-false_intro :
    {A : Type 0} (p : A → Bool) (xs : List A) → ((a : A) → In a xs → p a ≡ false) → any p xs ≡ false
any-false_intro p [] h = refl
any-false_intro p (x ∷ xs) h = simp (h x (inl refl), any-false_intro p xs (λ a m. h a (inr m))) refl

any-false_elim :
    {A : Type 0} (p : A → Bool) (xs : List A) (a : A) → any p xs ≡ false → In a xs → p a ≡ false
any-false_elim p xs a h m = All-In (λ x. p x ≡ false) xs a (any-false p xs h) m

settled-completed :
    (s : InvocationStatus)
    → not (is_settled s) ≡ false
    → did_not_complete s ≡ false
    → s ≡ InvocationStatus.completed
settled-completed s h k = ground arith

not-false : (b : Bool) → not b ≡ false → b ≡ true
not-false b h = ground arith

passed :
    (a b c d e f : Bool)
    → (if a
        then refused
        else if b
        then refused
        else if c
        then record { satisfied = false; owner_blocked = true }
        else if d
        then refused
        else if e
        then refused
        else if f
        then refused
        else record { satisfied = true; owner_blocked = false }).satisfied
      ≡ true
    → (a ≡ false) × (b ≡ false) × (c ≡ false) × (d ≡ false) × (e ≡ false) × (f ≡ false)
passed a b c d e f h =
    (ground arith, ground arith, ground arith, ground arith, ground arith, ground arith)

module _ (resolve : Text → Option CapabilityContract) where
  done :
      (i : CapabilityInvocation)
      → i.status ≡ InvocationStatus.completed
      → rejects i.owner_verification ≡ false
      → lacks_owner resolve i ≡ false
      → IsDone resolve i
  done i c r l = elim (Option-cases (resolve i.capability_id)) [
    | inl e ↦ absurd (cc (rw (e, lacks_owner) at l))
    | inr (contract, e) ↦
        let k = rw (e, lacks_owner) at l in
        record {
          completed = c;
          not_rejected = r;
          contract = contract;
          known = e;
          owner_verified = λ q. ground arith;
        }
  ]

  done-lacks_owner : (i : CapabilityInvocation) → IsDone resolve i → lacks_owner resolve i ≡ false
  done-lacks_owner i d =
      let e = d.known in
      elim (Bool-cases d.contract.requires_owner_verification) [
        | inl q ↦ rw (e, lacks_owner) (simp (q, d.owner_verified q) refl)
        | inr q ↦ rw (e, lacks_owner) (simp q refl)
      ]

  IsProven-iff :
      (mission : Mission) (invocations : List CapabilityInvocation) (c : Text)
      → (contains c
            (satisfied_criteria (trusted_owners invocations) mission.criterion_verifications)
          ≡ true)
        ↔ IsProven mission invocations c
  unfolding IsProven
  IsProven-iff mission invocations c =
      let owners = trusted_owners invocations in
      let found = satisfied_criteria-In owners mission.criterion_verifications c in
      (
        λ h.
            let (cv, m, e, k) = found.0 (contains-In c _ h) in
            let (s, t) = &&-true cv.satisfied (contains cv.source owners) k in
            (
              cv,
              m,
              e,
              s,
              trusted_owners-IsTrusted invocations cv.source (contains-In cv.source owners t),
            ),
        λ p.
            let t = In-contains p.0.source owners (IsTrusted-trusted_owners invocations _ p.4) in
            let s = p.3 in In-contains c _ (found.1 (p.0, p.1, p.2, simp (s, t) refl)),
      )

  -- The verifier is satisfied exactly when there is an invocation, every invocation is completed, known
  -- to the catalog and not rejected by its owner, verified by it where its contract demands so, and every
  -- acceptance criterion has a satisfied verification by an owner that verified one of the invocations.
  pub verify_iff :
      (mission : Mission) (invocations : List CapabilityInvocation)
      → ((verify resolve mission invocations).satisfied ≡ true)
        ↔ IsVerified resolve mission invocations
  unfolding verify
  verify_iff mission invocations =
      let proven =
        satisfied_criteria (trusted_owners invocations) mission.criterion_verifications in
      let unsettled = λ (i : CapabilityInvocation). not (is_settled i.status) in
      let negative = λ (i : CapabilityInvocation). rejects i.owner_verification in
      let failed = λ (i : CapabilityInvocation). did_not_complete i.status in
      let missing = λ (c : Text). not (contains c proven) in
      (
        λ h.
            let (some_invocation, settled, positive, finished, owned, all_found) =
              passed (is_empty invocations) (any unsettled invocations) (any negative invocations)
                (any failed invocations) (any (lacks_owner resolve) invocations)
                (any missing mission.acceptance_criteria) h in
            record {
              some_invocation = some_invocation;
              all_done = λ i m.
                  done i
                    (settled-completed i.status (any-false_elim unsettled invocations i settled m)
                      (any-false_elim failed invocations i finished m))
                    (any-false_elim negative invocations i positive m)
                    (any-false_elim (lacks_owner resolve) invocations i owned m);
              all_proven = λ c m. (IsProven-iff mission invocations c).0 (
                  not-false (contains c proven)
                    (any-false_elim missing mission.acceptance_criteria c all_found m));
            },
        λ v.
            simp
              (
                v.some_invocation,
                any-false_intro unsettled invocations (λ i m. rw ((v.all_done i m).completed) refl),
                any-false_intro negative invocations (λ i m. (v.all_done i m).not_rejected),
                any-false_intro failed invocations (λ i m. rw ((v.all_done i m).completed) refl),
                any-false_intro (lacks_owner resolve) invocations
                    (λ i m. done-lacks_owner i (v.all_done i m)),
                any-false_intro missing mission.acceptance_criteria
                    (λ c m. simp ((IsProven-iff mission invocations c).1 (v.all_proven c m)) refl),
              )
              refl,
      )
