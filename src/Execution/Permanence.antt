-- ===== src/Execution/Permanence.antt =====
-- `PaperBroker` of src/kiwit/execution.py: a proposal is filled once, and its fill stays.
use kiwi_t.Prelude.{
  ℕ, ◌*◌, ◌≤◌, ◌≡◌, ◌≢◌, refl, sym, ◌∙◌, subst, inl, inr, String, Bool, true, false, not, some,
  List, [], ◌∷◌, arith, Outcome, ok, err, raise_if, raise_if_ok, if◌then◌else◌, Bool-cases,
  Outcome-cases, str_eq, eq_iff, Returning, Returning-then, Returning-eq,
}
use kiwi_t.Simulator.Types.{Quote, instrument_eq}
use kiwi_t.Simulator.Methods.{Side, TradeProposal, RiskDecision}
use kiwi_t.Execution.Broker.{
  BrokerFailure, Fraction, PaperFill, PaperBroker, contains, get_fill, put_fill, fill_for,
  slipped_price, new_fill, add_fill, is_unapproved, execute, BrokerCall, after_call, execute_all,
}

-- A proposal counts as filled, and its fill is the given one.
pub record IsFilled (id : String) (f : PaperFill) (b : PaperBroker) : Type 0 where
  pub counted : contains id b.filled_proposals ≡ true
  pub stored : fill_for b id ≡ some f

get_fill-put_fill :
    (id : String) (f : PaperFill) (xs : List (String × PaperFill))
    → get_fill id (put_fill id f xs) ≡ some f
unfolding get_fill put_fill
get_fill-put_fill id f [] = rw ((eq_iff id id).1 refl) refl
get_fill-put_fill id f ((k, g) ∷ rest) = elim (Bool-cases (str_eq k id)) [
  | inl same ↦ rw same (rw same refl)
  | inr other ↦ rw other (rw other (get_fill-put_fill id f rest))
]

other_text : (a b : String) → a ≢ b → str_eq a b ≡ false
other_text a b h = elim (Bool-cases (str_eq a b)) [
  | inl same ↦ absurd (h ((eq_iff a b).0 same))
  | inr other ↦ other
]

if-both :
    {A : Type 0} (b : Bool) (x : A) {y z : A} → y ≡ z → (if b then x else y) ≡ (if b then x else z)
if-both true x h = refl
if-both false x h = h

get_fill-put_fill_ne :
    (id other : String) (f : PaperFill) (xs : List (String × PaperFill))
    → other ≢ id
    → get_fill id (put_fill other f xs) ≡ get_fill id xs
unfolding get_fill put_fill
get_fill-put_fill_ne id other f [] h = rw (other_text other id h) refl
get_fill-put_fill_ne id other f ((k, g) ∷ rest) h = elim (Bool-cases (str_eq k other)) [
  | inl same ↦
      let e : str_eq k id ≡ false =
        subst (λ x. str_eq x id ≡ false) (sym ((eq_iff k other).0 same)) (other_text other id h) in
      rw same (rw e refl)
  | inr apart ↦ rw apart (if-both (str_eq k id) (some g) (get_fill-put_fill_ne id other f rest h))
]

-- the price is no better for the trader than the quote
abbrev pub NoBetter : Side → Quote → Fraction → Type 0
NoBetter Side.buy quote p = quote.ask * p.denominator ≤ p.numerator
NoBetter Side.sell quote p = p.numerator ≤ quote.bid * p.denominator

slipped_price-NoBetter :
    (bps : ℕ) (side : Side) (quote : Quote) → NoBetter side quote (slipped_price bps side quote)
unfolding slipped_price
slipped_price-NoBetter bps Side.buy quote = grind arith
slipped_price-NoBetter bps Side.sell quote = grind arith

-- What `execute` has found and done when it returns.
pub record Executed (b : PaperBroker) (o : TradeProposal) (r : RiskDecision) (quote : Quote)
    (result : PaperFill × PaperBroker) : Type 0 where
  pub approved : is_unapproved o r ≡ false
  pub fresh : contains o.proposal_id b.filled_proposals ≡ false
  pub matched : instrument_eq quote.instrument o.instrument ≡ true
  pub named : result.0.proposal_id ≡ o.proposal_id
  pub updated : result.1 ≡ add_fill b result.0
  pub filled : IsFilled o.proposal_id result.0 result.1
  pub quantity : result.0.quantity ≡ r.quantity
  pub price : NoBetter o.side quote result.0.price

add_fill-IsFilled : (b : PaperBroker) (f : PaperFill) → IsFilled f.proposal_id f (add_fill b f)
unfolding add_fill contains fill_for
add_fill-IsFilled b f = record {
  counted = rw ((eq_iff f.proposal_id f.proposal_id).1 refl) refl;
  stored = get_fill-put_fill f.proposal_id f b.fills_by_proposal;
}

-- An execution that returns had an approval of this proposal with a positive quantity, was the first of
-- it, and was of a quote of its instrument; the fill has the approved quantity at a price that is no
-- better than the quote, and is stored under the proposal.
pub execute-Executed :
    (b : PaperBroker) (o : TradeProposal) (r : RiskDecision) (quote : Quote) (fill_id : String)
    (now : ℕ)
    → Returning (Executed b o r quote) (execute b o r quote fill_id now)
unfolding execute
execute-Executed b o r quote fill_id now =
    let E = Executed b o r quote in
    let f = new_fill b o r quote fill_id now in
    Returning-then E (raise_if (is_unapproved o r) _) _ (λ approved.
      Returning-then E (raise_if (contains o.proposal_id b.filled_proposals) _) _ (λ fresh.
        Returning-then E (raise_if (not (instrument_eq quote.instrument o.instrument)) _)
          (ok (f, add_fill b f))
          (λ matched. record {
            approved = raise_if_ok _ _ approved;
            fresh = raise_if_ok _ _ fresh;
            matched = ground (arith, raise_if_ok _ _ matched);
            named = unfold new_fill in refl;
            updated = refl;
            filled = unfold new_fill in add_fill-IsFilled b f;
            quantity = unfold new_fill in refl;
            price = unfold new_fill in slipped_price-NoBetter b.slippage_bps o.side quote;
          })))

clash : {b : Bool} → b ≡ false → b ≡ true → ⊥
clash h k = cc

add_fill-stays :
    (id : String) (f : PaperFill) (b : PaperBroker) (g : PaperFill)
    → IsFilled id f b
    → g.proposal_id ≢ id
    → IsFilled id f (add_fill b g)
unfolding add_fill contains fill_for
add_fill-stays id f b g h other = record {
  counted = rw (other_text g.proposal_id id other) (h.counted);
  stored = get_fill-put_fill_ne id g.proposal_id g b.fills_by_proposal other ∙ h.stored;
}

-- A call keeps a fill: one of the same proposal raises.
execute-stays :
    (id : String) (f : PaperFill) (b : PaperBroker) (c : BrokerCall)
    (r : Outcome BrokerFailure (PaperFill × PaperBroker))
    → IsFilled id f b
    → r ≡ execute b c.proposal c.risk c.quote c.fill_id c.now
    → IsFilled id f (after_call b r)
unfolding after_call
execute-stays id f b c (err e) h k = h
execute-stays id f b c (ok x) h k =
    let done =
      Returning-eq (Executed b c.proposal c.risk c.quote) _
        (execute-Executed b c.proposal c.risk c.quote c.fill_id c.now) (sym k) in
    subst (IsFilled id f) (sym done.updated) (
      add_fill-stays id f b x.0 h
        (λ same. clash done.fresh (rw (sym (sym done.named ∙ same)) at h.counted)))

all-stays :
    (id : String) (f : PaperFill) (calls : List BrokerCall) (b : PaperBroker)
    → IsFilled id f b
    → IsFilled id f (execute_all calls b)
unfolding execute_all
all-stays id f [] b h = h
all-stays id f (c ∷ rest) b h =
    all-stays id f rest (after_call b (execute b c.proposal c.risk c.quote c.fill_id c.now))
      (execute-stays id f b c _ h refl)

-- A proposal that is filled is not executed again.
refuses :
    (id : String) (f : PaperFill) (b : PaperBroker) (c : BrokerCall)
    → IsFilled id f b
    → c.proposal.proposal_id ≡ id
    → (e : BrokerFailure) × (execute b c.proposal c.risk c.quote c.fill_id c.now ≡ err e)
refuses id f b c h same =
    elim (Outcome-cases (execute b c.proposal c.risk c.quote c.fill_id c.now)) [
      | inl (x, e) ↦
          let done =
            Returning-eq (Executed b c.proposal c.risk c.quote) _
              (execute-Executed b c.proposal c.risk c.quote c.fill_id c.now) e in
          absurd (clash done.fresh (rw same h.counted))
      | inr failed ↦ failed
    ]

-- Once a proposal is executed, whatever calls follow, `fill_for` answers with that fill, and every later
-- execution of the same proposal raises.
pub fill-stays :
    (b b' : PaperBroker) (o : TradeProposal) (r : RiskDecision) (quote : Quote) (fill_id : String)
    (now : ℕ) (f : PaperFill) (calls : List BrokerCall) (again : BrokerCall)
    → execute b o r quote fill_id now ≡ ok (f, b')
    → again.proposal.proposal_id ≡ o.proposal_id
    → (fill_for (execute_all calls b') o.proposal_id ≡ some f)
      × ((e : BrokerFailure) × (execute
              (execute_all calls b')
              again.proposal
              again.risk
              again.quote
              again.fill_id
              again.now
            ≡ err e))
fill-stays b b' o r quote fill_id now f calls again h same =
    let done = Returning-eq (Executed b o r quote) _ (execute-Executed b o r quote fill_id now) h in
    let stays = all-stays o.proposal_id f calls b' done.filled in
    (stays.stored, refuses o.proposal_id f (execute_all calls b') again stays same)
