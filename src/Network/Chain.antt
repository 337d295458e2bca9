-- ===== src/Network/Chain.antt =====
-- A chain of servers, each told by the one before it, and what the last one knows of the first.
use cpsc.Common.{◌<◌, List, [], ◌∷◌, ◌≡◌, ◌≢◌, ◌∙◌, sym, ap, subst, Holds}
use cpsc.Text.{Bytes}
use cpsc.Constants.{number_of_servers, mt_undefined}
use cpsc.Message.{DataMessage}
use cpsc.Server.State.{Server, clients_served}
use cpsc.Server.State.WellFormed.{IsWellFormed}
use cpsc.Server.Routing.{process_client_send_message}
use cpsc.Server.Routing.Search.{IsConnected}
use cpsc.Server.Routing.Routes.{
  Forwards, stays, leftwards, rightwards, waits, process_client_send_message-Routes,
}
use cpsc.Server.Sync.{refresh_own_clients}
use cpsc.Network.Direction.{
  Direction, opposite, neighbour, IsPreferred, rightward, leftward, IsNext, IsFrom, IsPast,
  IsFrom-refl, IsFrom-IsNext, IsPast-IsFrom, IsPast-ne, IsPast-irrefl, Holds-sources, IsServedBack,
  Holds-IsServedBack,
}
use cpsc.Network.Spread.{Tells, Tells-Learns, own_names, own_entry, other_entry}

pub Holds-ne-nil : (name : Bytes) (l : List Bytes) → Holds name l → l ≢ []
Holds-ne-nil name [] h = absurd h
Holds-ne-nil name (x ∷ l) h = λ e. cc

module _ {E T : Type 0} (d : Direction) where
  -- `Chain d s t`: `t` is `s`, or what became of a server whose neighbour, at the end of such a
  -- chain, has told it its lists.
  pub data Chain (s : Server E T) : Server E T → Type 0 where
    first : Chain s s
    next :
        {t u u' : Server E T} → Chain s t → Tells d t u u' → IsNext d t.index u.index → Chain s u'

  -- One server further.
  pub record HasLearned (s t : Server E T) : Type 0 where
    pub entry : clients_served t s.index ≡ own_names s
    pub past : IsPast d s.index t.index

  Tells-HasLearned :
      (s : Server E T) {t u u' : Server E T}
      → s.index < number_of_servers
      → own_names s ≢ []
      → clients_served (refresh_own_clients t) s.index ≡ own_names s
      → IsFrom d s.index t.index
      → Tells d t u u'
      → IsNext d t.index u.index
      → HasLearned s u'
  Tells-HasLearned s {t} {u} {u'} inside some_client entry from tells next_to =
      let learns = Tells-Learns d tells in
      record {
        entry =
            learns.learned s.index (Holds-sources d s.index t.index inside from)
              (λ e. some_client (sym entry ∙ e))
            ∙ entry;
        past =
            subst (IsPast d s.index) (sym (ap (λ (x : Server E T). x.index) learns.others))
              (IsFrom-IsNext d s.index t.index u.index from next_to);
      }

  pub Chain-entry :
      (s : Server E T) {t : Server E T}
      → IsWellFormed s
      → own_names s ≢ []
      → Chain s t
      → (clients_served (refresh_own_clients t) s.index ≡ own_names s) × IsFrom d s.index t.index
  Chain-entry s w some_client first = (own_entry s w, IsFrom-refl d s.index)
  Chain-entry s w some_client (next {u' = u'} chain tells next_to) =
      let (entry, from) = Chain-entry s w some_client chain in
      let told = Tells-HasLearned s w.placed.in_range some_client entry from tells next_to in
      (
        other_entry u' s.index (λ e. IsPast-ne d s.index u'.index told.past (sym e)) ∙ told.entry,
        IsPast-IsFrom d s.index u'.index told.past,
      )

  pub Chain-HasLearned :
      (s : Server E T) {t : Server E T}
      → IsWellFormed s
      → own_names s ≢ []
      → IsPast d s.index t.index
      → Chain s t
      → HasLearned s t
  Chain-HasLearned s w some_client past first = absurd (IsPast-irrefl d s.index past)
  Chain-HasLearned s w some_client past (next chain tells next_to) =
      let (entry, from) = Chain-entry s w some_client chain in
      Tells-HasLearned s w.placed.in_range some_client entry from tells next_to

  pub Chain-IsServedBack :
      (s t : Server E T) (name : Bytes)
      → IsWellFormed s
      → IsConnected name s
      → IsPast d s.index t.index
      → Chain s t
      → IsServedBack d name t
  Chain-IsServedBack s t name w here past chain =
      let learned = Chain-HasLearned s w (Holds-ne-nil name (own_names s) here) past chain in
      Holds-IsServedBack d name s.index t w.placed.in_range past
        (subst (Holds name) (sym learned.entry) here)

module _ {E T : Type 0} where
  -- When rounds of `sendSyncPayloads` have told one server after the other, from a server on, then
  -- the last of them sends a message for a client of the first, one that is not its own client too,
  -- back: to its left neighbour if they were told from left to right, and to its right neighbour if
  -- from right to left and no list of a server to its left names the client too; if both servers
  -- are well formed and the message is of a type.
  pub process_client_send_message-Chain :
      (d : Direction) (s t : Server E T) (m : DataMessage)
      → IsWellFormed s
      → IsWellFormed t
      → m.message_type ≢ mt_undefined
      → IsConnected m.destination_identifier s
      → ¬ IsConnected m.destination_identifier t
      → IsPast d s.index t.index
      → Chain d s t
      → IsPreferred d m.destination_identifier t
      → Forwards m t (neighbour (opposite d) t) (process_client_send_message m t)
  process_client_send_message-Chain rightward s t m w w' typed here away past chain preferred =
      let left = Chain-IsServedBack rightward s t m.destination_identifier w here past chain in
      elim (process_client_send_message-Routes m t w' typed) [
        | stays h _ ↦ absurd (away h)
        | leftwards _ _ f ↦ f
        | rightwards _ not_left _ _ ↦ absurd (not_left left)
        | waits _ not_left _ _ ↦ absurd (not_left left)
      ]
  process_client_send_message-Chain leftward s t m w w' typed here away past chain preferred =
      let right = Chain-IsServedBack leftward s t m.destination_identifier w here past chain in
      elim (process_client_send_message-Routes m t w' typed) [
        | stays h _ ↦ absurd (away h)
        | leftwards _ left _ ↦ absurd (preferred left)
        | rightwards _ _ _ f ↦ f
        | waits _ _ not_right _ ↦ absurd (not_right right)
      ]
