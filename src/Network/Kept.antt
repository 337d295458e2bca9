-- ===== src/Network/Kept.antt =====
-- A client's message as its destination's server passes it on.
use cpsc.Common.{
  ℕ, ℤ, ◌≤◌, ◌≡◌, [], ◌∷◌, ◌++◌, refl, sym, ap, subst, arith, length, length-append, returns,
  returns_inj,
}
use cpsc.Text.{Bytes, to_string}
use cpsc.Constants.{mt_client_send, mt_server_send}
use cpsc.Message.{text_message, as_char_vector, view_message_type_as_string}
use cpsc.Server.Listen.Hop.{IsCarried}

-- A text with something in it has a first character.
append_cons : (s rest : Bytes) (c : ℕ) → (b : ℕ) × (more : Bytes) × (s ++ c ∷ rest ≡ b ∷ more)
append_cons [] rest c = (c, rest, refl)
append_cons (b ∷ s) rest c = (b, s ++ c ∷ rest, refl)

-- What a server passes on to its client is no longer than what it received: both type names have
-- eleven letters.
pub kept-IsCarried :
    (n : ℤ) (source destination text bytes : Bytes)
    → IsCarried (text_message n mt_client_send source destination text) bytes
    → (b : ℕ) × (more : Bytes) × IsCarried
        (text_message n mt_server_send source destination text)
        (b ∷ more)
unfolding as_char_vector view_message_type_as_string
kept-IsCarried n source destination text bytes c =
    let kept = text_message n mt_server_send source destination text in
    let fits = subst (λ s. length s ≤ 256) (sym (returns_inj c.printed)) c.fits in
    let (b, more, e) = append_cons (to_string n) _ b'/' in
    (
      b,
      more,
      record {
        plain = record {
          source = c.plain.source;
          destination = c.plain.destination;
          payload = c.plain.payload;
          origin = c.plain.origin;
        };
        number = c.number;
        printed = ap returns e;
        fits = subst (λ s. length s ≤ 256) e (omega (arith, fits, length-append {0}));
      },
    )
