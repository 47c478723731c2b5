-- ===== src/Moderation/Store/Lifecycle.antt =====
-- What a case, an action and an appeal go through.
use mathlib.Core.Path.{subst, ◌∙◌}
use match_mate_dating_web.Base.{
  ℕ, ◌≤◌, ◌≡◌, refl, sym, Bool, true, false, not, ◌||◌, String, arith, inl, inr, ◌⊎◌, Bool-cases,
  string_eq,
}
use match_mate_dating_web.Moderation.Domain.{ReportStatus, ActionState}
use match_mate_dating_web.Moderation.Store.{
  Case, Action, Appeal, is_opened, is_triaged, is_investigating, is_actioned, is_dismissed,
  is_active, is_appealed,
}
use match_mate_dating_web.Moderation.Store.Cases.{allowed, status_row, assign_row}
use match_mate_dating_web.Moderation.Store.Actions.{expire_row, reverse_row, decide_row}

-- The changes of a case's status.
abbrev pub leads_to : ReportStatus → ReportStatus → Bool
leads_to s ReportStatus.opened = false
leads_to s ReportStatus.triaged = is_opened s
leads_to s ReportStatus.investigating = is_triaged s
leads_to s ReportStatus.actioned = is_investigating s
leads_to s ReportStatus.dismissed = is_investigating s

infix 40 ◌⟶*◌
pub data ◌⟶*◌ : ReportStatus → ReportStatus → Type 0 where
  here : {s : ReportStatus} → s ⟶* s
  then_step : {s t u : ReportStatus} → leads_to s t ≡ true → t ⟶* u → s ⟶* u

⟶*_trans : {s t u : ReportStatus} → s ⟶* t → t ⟶* u → s ⟶* u
⟶*_trans here k = k
⟶*_trans (then_step e h) k = then_step e (⟶*_trans h k)

-- A case keeps its severity and its age, its status moves along the table, its version does not
-- fall, and once it is dismissed nothing of it changes.
pub record CaseFollows (c d : Case) : Type 0 where
  pub severity : c.severity ≡ d.severity
  pub creation : c.created_at ≡ d.created_at
  pub path : c.status ⟶* d.status
  pub version : c.version ≤ d.version
  pub final : (is_dismissed c.status ≡ false) ⊎ (c ≡ d)

pub CaseFollows-refl : (c : Case) → CaseFollows c c
CaseFollows-refl c = record {
  severity = refl;
  creation = refl;
  path = here;
  version = omega arith;
  final = inr refl;
}

pub CaseFollows-trans : (c d e : Case) → CaseFollows c d → CaseFollows d e → CaseFollows c e
CaseFollows-trans c d e h k = record {
  severity = h.severity ∙ k.severity;
  creation = h.creation ∙ k.creation;
  path = ⟶*_trans h.path k.path;
  version = omega (arith, h.version, k.version);
  final = elim (h.final) [
    | inl runs ↦ inl runs
    | inr same ↦ subst (λ x. (is_dismissed x.status ≡ false) ⊎ (x ≡ e)) (sym same) k.final
  ];
}

pub assign_row-CaseFollows :
    (assignee : String) (now : ℕ) (c : Case)
    → (is_actioned c.status || is_dismissed c.status) ≡ false
    → CaseFollows c (assign_row assignee now c)
assign_row-CaseFollows assignee now c h = elim (Bool-cases (is_opened c.status)) [
  | inl new ↦ rw new (record {
    severity = refl;
    creation = refl;
    path = then_step new here;
    version = omega arith;
    final = inl (ground (arith, h));
  })
  | inr old ↦ rw old (record {
    severity = refl;
    creation = refl;
    path = here;
    version = omega arith;
    final = inl (ground (arith, h));
  })
]

allowed-leads_to : (s t : ReportStatus) → allowed s t ≡ true → leads_to s t ≡ true
allowed-leads_to s t h = ground (arith, h)

pub status_row-CaseFollows :
    (next : ReportStatus) (now : ℕ) (c : Case)
    → allowed c.status next ≡ true
    → CaseFollows c (status_row next now c)
status_row-CaseFollows next now c h = record {
  severity = refl;
  creation = refl;
  path = then_step (allowed-leads_to c.status next h) here;
  version = omega arith;
  final = inl (ground (arith, h));
}

actioned_path :
    (s : ReportStatus) → (is_investigating s || is_actioned s) ≡ true → s ⟶* ReportStatus.actioned
actioned_path ReportStatus.opened h = absurd (ground (arith, h))
actioned_path ReportStatus.triaged h = absurd (ground (arith, h))
actioned_path ReportStatus.investigating h = then_step refl here
actioned_path ReportStatus.actioned h = here
actioned_path ReportStatus.dismissed h = absurd (ground (arith, h))

pub actioned_row-CaseFollows :
    (now : ℕ) (c : Case)
    → (is_investigating c.status || is_actioned c.status) ≡ true
    → CaseFollows c (status_row ReportStatus.actioned now c)
actioned_row-CaseFollows now c h = record {
  severity = refl;
  creation = refl;
  path = actioned_path c.status h;
  version = omega arith;
  final = inl (ground (arith, h));
}

-- An action keeps everything but its state, and an action that has ended does not become active.
pub record ActionFollows (a b : Action) : Type 0 where
  pub terms : record a { state = ActionState.active } ≡ record b { state = ActionState.active }
  pub ended : (is_active a.state || not (is_active b.state)) ≡ true

pub ActionFollows-refl : (a : Action) → ActionFollows a a
ActionFollows-refl a = record { terms = refl; ended = ground (arith) }

pub ActionFollows-trans :
    (a b c : Action) → ActionFollows a b → ActionFollows b c → ActionFollows a c
ActionFollows-trans a b c h k = record {
  terms = h.terms ∙ k.terms;
  ended = ground (arith, h.ended, k.ended);
}

pub expire_row-ActionFollows : (a : Action) → ActionFollows a (expire_row a)
expire_row-ActionFollows a = record { terms = refl; ended = ground (arith) }

pub reverse_row-ActionFollows : (a : Action) → ActionFollows a (reverse_row a)
reverse_row-ActionFollows a = record { terms = refl; ended = ground (arith) }

-- An appeal that has been decided does not change.
pub record AppealFollows (a b : Appeal) : Type 0 where
  pub same_action : a.action_id ≡ b.action_id
  pub same_appellant : a.appellant_id ≡ b.appellant_id
  pub same_reason : a.reason ≡ b.reason
  pub final : (is_appealed a.state ≡ true) ⊎ (a ≡ b)

pub AppealFollows-refl : (a : Appeal) → AppealFollows a a
AppealFollows-refl a = record {
  same_action = refl;
  same_appellant = refl;
  same_reason = refl;
  final = inr refl;
}

pub AppealFollows-trans :
    (a b c : Appeal) → AppealFollows a b → AppealFollows b c → AppealFollows a c
AppealFollows-trans a b c h k = record {
  same_action = h.same_action ∙ k.same_action;
  same_appellant = h.same_appellant ∙ k.same_appellant;
  same_reason = h.same_reason ∙ k.same_reason;
  final = elim (h.final) [
    | inl waits ↦ inl waits
    | inr same ↦ subst (λ x. (is_appealed x.state ≡ true) ⊎ (x ≡ c)) (sym same) k.final
  ];
}

pub decide_row-AppealFollows :
    (reverses : Bool) (actor reason : String) (now : ℕ) (a : Appeal)
    → is_appealed a.state ≡ true
    → AppealFollows a (decide_row reverses actor reason now a)
decide_row-AppealFollows reverses actor reason now a h = record {
  same_action = refl;
  same_appellant = refl;
  same_reason = refl;
  final = inl h;
}
