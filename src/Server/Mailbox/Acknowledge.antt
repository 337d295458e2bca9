-- ===== src/Server/Mailbox/Acknowledge.antt =====
-- `removeReceivedMessageFromList`.
use cpsc.Common.{
  [], ◌∷◌, ◌++◌, List, ℤ, pos, negsuc, eqb_ℤ, ◌≡◌, ◌≢◌, ◌⊎◌, ◌↔◌, inl, inr, refl, arith, All,
  Bool-cases, if◌then◌else◌, not_of_false, true, ap, subst, sym, All-append, All-of_append,
  false_of_not,
}
use mathlib.Core.Path.{ap₂}
use cpsc.Constants.{mt_server_send}
use cpsc.Message.{DataMessage, set_message_type}
use cpsc.Server.State.{Server, add_to_message_list}
use cpsc.Server.State.WellFormed.{IsWellFormed, IsKept}
use cpsc.Server.Mailbox.{remove_message, remove_received_message_from_list}

pub eqb_ℤ_iff : (a b : ℤ) → (eqb_ℤ a b ≡ true) ↔ (a ≡ b)
eqb_ℤ_iff (pos a) (pos b) = (λ h. ground arith, λ h. ground arith)
eqb_ℤ_iff (negsuc a) (negsuc b) = (λ h. ground arith, λ h. ground arith)
eqb_ℤ_iff (pos a) (negsuc b) = (λ h. cc, λ h. cc)
eqb_ℤ_iff (negsuc a) (pos b) = (λ h. cc, λ h. cc)

-- `new` is `old` without the first message that has the number of the acknowledgement.
pub record RemovesFirst (ack : DataMessage) (old new : List DataMessage) : Type 0 where
  pub before : List DataMessage
  pub message : DataMessage
  pub behind : List DataMessage
  pub split : old ≡ before ++ message ∷ behind
  pub others : All (λ m. m.sequence_number ≢ ack.sequence_number) before
  pub same_number : message.sequence_number ≡ ack.sequence_number
  pub rest : new ≡ before ++ behind

abbrev pub Acknowledges : DataMessage → List DataMessage → List DataMessage → Type 0
Acknowledges ack old new =
    (All (λ m. m.sequence_number ≢ ack.sequence_number) old × (new ≡ old))
    ⊎ RemovesFirst ack old new

Acknowledges-cons :
    (ack m : DataMessage) (old new : List DataMessage)
    → m.sequence_number ≢ ack.sequence_number
    → Acknowledges ack old new
    → Acknowledges ack (m ∷ old) (m ∷ new)
Acknowledges-cons ack m old new other (inl (all, e)) = inl ((other, all), ap (λ l. m ∷ l) e)
Acknowledges-cons ack m old new other (inr r) = inr (record {
  before = m ∷ r.before;
  message = r.message;
  behind = r.behind;
  split = ap (λ l. m ∷ l) r.split;
  others = (other, r.others);
  same_number = r.same_number;
  rest = ap (λ l. m ∷ l) r.rest;
})

remove_message-Acknowledges :
    (ack : DataMessage) (ms : List DataMessage) → Acknowledges ack ms (remove_message ack ms)
unfolding remove_message
remove_message-Acknowledges ack [] = inl (tt, refl)
remove_message-Acknowledges ack (m ∷ ms) =
    elim (Bool-cases (eqb_ℤ m.sequence_number ack.sequence_number)) [
      | inl e ↦ rw e (
          inr (record {
            before = [];
            message = m;
            behind = ms;
            split = refl;
            others = tt;
            same_number = (eqb_ℤ_iff m.sequence_number ack.sequence_number).0 e;
            rest = refl;
          }))
      | inr e ↦ rw e (
          Acknowledges-cons ack m ms (remove_message ack ms)
            (not_of_false _ (eqb_ℤ_iff m.sequence_number ack.sequence_number) e)
            (remove_message-Acknowledges ack ms))
    ]

-- An acknowledgement removes the first message of the list that has its sequence number, whoever
-- sent it and whoever it is for, and nothing else; where no message has the number, nothing
-- changes.
pub remove_received_message_from_list-Acknowledges :
    {E T : Type 0} (ack : DataMessage) (s : Server E T)
    → Acknowledges ack s.message_list (remove_received_message_from_list ack s).message_list
unfolding remove_received_message_from_list
remove_received_message_from_list-Acknowledges ack s =
    remove_message-Acknowledges ack s.message_list

pub Acknowledges-All :
    (P : DataMessage → Type 0) (ack : DataMessage) (old new : List DataMessage)
    → Acknowledges ack old new
    → All P old
    → All P new
Acknowledges-All P ack old new (inl (_, e)) h = subst (All P) (sym e) h
Acknowledges-All P ack old new (inr r) h =
    let (before, behind) =
      All-of_append P r.before (r.message ∷ r.behind) (subst (All P) r.split h) in
    subst (All P) (sym r.rest) (All-append P r.before r.behind before behind.1)

pub remove_received_message_from_list-IsWellFormed :
    {E T : Type 0} (ack : DataMessage) {s : Server E T}
    → IsWellFormed s
    → IsWellFormed (remove_received_message_from_list ack s)
unfolding remove_received_message_from_list
remove_received_message_from_list-IsWellFormed ack {s} w = record {
  placed = w.placed;
  tables = w.tables;
  waiting = w.waiting;
  kept =
      Acknowledges-All IsKept ack s.message_list _ (remove_message-Acknowledges ack s.message_list)
        w.kept;
}

remove_message_same :
    (a b : DataMessage) (ms : List DataMessage)
    → a.sequence_number ≡ b.sequence_number
    → remove_message a ms ≡ remove_message b ms
unfolding remove_message
remove_message_same a b [] e = refl
remove_message_same a b (m ∷ ms) e =
    ap₂ (λ n l. if eqb_ℤ m.sequence_number n then ms else m ∷ l) e (remove_message_same a b ms e)

-- Of an acknowledgement only the number counts.
pub remove_received_message_from_list_same :
    {E T : Type 0} (a b : DataMessage) (s : Server E T)
    → a.sequence_number ≡ b.sequence_number
    → remove_received_message_from_list a s ≡ remove_received_message_from_list b s
unfolding remove_received_message_from_list
remove_received_message_from_list_same a b s e =
    ap (λ l. record s { message_list = l }) (remove_message_same a b s.message_list e)

remove_message-append :
    (m ack : DataMessage) (ms : List DataMessage)
    → m.sequence_number ≡ ack.sequence_number
    → All (λ x. x.sequence_number ≢ ack.sequence_number) ms
    → remove_message ack (ms ++ m ∷ []) ≡ ms
unfolding remove_message
remove_message-append m ack [] e fresh =
    rw ((eqb_ℤ_iff m.sequence_number ack.sequence_number).1 e) refl
remove_message-append m ack (x ∷ ms) e fresh =
    rw
      (false_of_not (eqb_ℤ x.sequence_number ack.sequence_number)
        (eqb_ℤ_iff x.sequence_number ack.sequence_number) fresh.0)
      (ap (λ l. x ∷ l) (remove_message-append m ack ms e fresh.1))

-- A message that was stored last, with a number of its own, is the one that is removed.
pub remove_received_message_from_list-add_to_message_list :
    {E T : Type 0} (m : DataMessage) (s : Server E T)
    → All (λ x. x.sequence_number ≢ m.sequence_number) s.message_list
    → remove_received_message_from_list m (add_to_message_list m s) ≡ s
unfolding remove_received_message_from_list add_to_message_list
remove_received_message_from_list-add_to_message_list m s fresh =
    ap (λ l. record s { message_list = l })
      (remove_message-append (set_message_type mt_server_send m) m s.message_list refl fresh)
