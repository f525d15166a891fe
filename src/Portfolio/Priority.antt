-- ===== src/Portfolio/Priority.antt =====
-- `Rank` of backend/internal/portfolio/portfolio.go. `hours <= k` of the source compares a float
-- quotient: here the deadline is compared with `k` hours from now, in nanoseconds.
use razorpay_ai_revenue_reco.Base.{ℕ, suc, String, ◌*◌, Bool, not, List, [], ◌∷◌, map}
use razorpay_ai_revenue_reco.Base.Tests.{ltb_text, if◌then◌else◌}
use razorpay_ai_revenue_reco.Base.Int.{ℤ, pos, ltb_ℤ, leb_ℤ, eqb_ℤ, quo, wrap64, ◌*ℤ◌}
use razorpay_ai_revenue_reco.Base.Sort.{sort_by}
use razorpay_ai_revenue_reco.Base.Clock.{Time, hour_ns, sub_time}
use razorpay_ai_revenue_reco.Domain.Actions.{ActionType}

pub record PortfolioCandidate : Type 0 where
  pub merchant_id : String
  pub case_id : String
  pub decision_id : String
  pub action : ActionType
  pub amount_at_risk_minor : ℤ
  pub expected_incremental_value_minor : ℤ
  pub expected_nerv_minor : ℤ
  pub deadline : Time
  pub arrival_at : Time
  pub recoverability_bps : ℤ

-- Without `ID` (random) and `Explanation` (a JSON text for readers).
pub record Item : Type 0 where
  pub run_id : String
  pub merchant_id : String
  pub case_id : String
  pub decision_id : String
  pub action : ActionType
  pub amount_at_risk_minor : ℤ
  pub expected_incremental_value_minor : ℤ
  pub expected_nerv_minor : ℤ
  pub urgency_bps : ℕ
  pub recoverability_bps : ℕ
  pub priority_score_minor : ℤ
  pub rank : ℕ
  pub algorithm_version : String
  pub created_at : Time
  pub arrival_at : Time

-- `Mul` and `Quo` are exact; `Int64` keeps the low 64 bits.
unfoldable pub mul_div : ℤ → ℤ → ℕ → ℤ
mul_div a b d = wrap64 (quo (a *ℤ b) d)

unfoldable pub urgency : Time → Time → ℕ
urgency deadline now =
    let left = sub_time deadline now in
    if leb_ℤ left (pos hour_ns)
    then 15000
    else if leb_ℤ left (pos (6 * hour_ns))
    then 12500
    else if leb_ℤ left (pos (24 * hour_ns))
    then 10000
    else 7500

unfoldable pub clamp_bps : ℤ → ℕ
clamp_bps (pos n) = if ltb_ℤ (pos 10000) (pos n) then 10000 else n
clamp_bps _ = 0

unfoldable pub priority_score : ℤ → ℕ → ℕ → ℤ
unfolding mul_div
priority_score nerv urgency recoverability =
    mul_div (mul_div nerv (pos urgency) 10000) (pos recoverability) 10000

unfoldable pub score_item : Time → String → PortfolioCandidate → Item
score_item now run_id c =
    let u = urgency c.deadline now in
    let r = clamp_bps c.recoverability_bps in
    record {
      run_id = run_id;
      merchant_id = c.merchant_id;
      case_id = c.case_id;
      decision_id = c.decision_id;
      action = c.action;
      amount_at_risk_minor = c.amount_at_risk_minor;
      expected_incremental_value_minor = c.expected_incremental_value_minor;
      expected_nerv_minor = c.expected_nerv_minor;
      urgency_bps = u;
      recoverability_bps = r;
      priority_score_minor = priority_score c.expected_nerv_minor u r;
      rank = 0;
      algorithm_version = "portfolio-priority-v1";
      created_at = now;
      arrival_at = c.arrival_at;
    }

-- The comparison of `sort.Slice`.
unfoldable pub item_less : Item → Item → Bool
item_less i j =
    if not (eqb_ℤ i.priority_score_minor j.priority_score_minor)
    then ltb_ℤ j.priority_score_minor i.priority_score_minor
    else if not (eqb_ℤ i.expected_nerv_minor j.expected_nerv_minor)
    then ltb_ℤ j.expected_nerv_minor i.expected_nerv_minor
    else ltb_text i.case_id j.case_id

-- `items[i].Rank = i + 1`
unfoldable pub number_from : ℕ → List Item → List Item
number_from n [] = []
number_from n (x ∷ xs) = record x { rank = n } ∷ number_from (suc n) xs

unfoldable pub rank_items : List PortfolioCandidate → Time → String → List Item
unfolding number_from sort_by
rank_items candidates now run_id =
    number_from 1 (sort_by item_less (map (score_item now run_id) candidates))
