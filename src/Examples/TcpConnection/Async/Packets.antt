-- ===== src/Examples/TcpConnection/Async/Packets.antt =====
-- The flags of the packets that a connection is handed (examples/TcpConnection.cpp), and what the state of
-- a connection needs to have come.
use mathlib.Core.List.{append-nil}
use active_fsm.Base.{Bool, true, false, ◌||◌, some, List, [], ◌∷◌, ◌++◌, ◌≡◌, refl, sym, ◌∙◌, subst}
use active_fsm.Examples.TcpConnection.{TcpCall, handle_packet_call}
use active_fsm.Examples.TcpConnection.Laws.{
  Phase, is_closed, is_listen, is_syn_sent, is_syn_rcvd, is_established, is_fin_wait_1,
  is_fin_wait_2, is_close_wait, is_closing, is_last_ack, Request, to_open, to_listen, to_send,
  to_close, to_packet, Verdict, ignored, forbidden, moved, answer,
}
use active_fsm.Examples.TcpConnection.Promise.{after}
use active_fsm.Examples.TcpConnection.Async.{call_of}

abbrev pub has_syn : TcpCall → Bool
has_syn (handle_packet_call (some p)) = p.syn
has_syn _ = false

abbrev pub has_ack : TcpCall → Bool
has_ack (handle_packet_call (some p)) = p.ack
has_ack _ = false

abbrev pub any : (TcpCall → Bool) → List TcpCall → Bool
any f [] = false
any f (c ∷ cs) = f c || any f cs

-- What a phase needs to have come: a packet with syn, and for some phases one with ack
abbrev pub Shaken : Phase → Bool → Bool → Type 0
Shaken is_closed s a = Unit {0}
Shaken is_listen s a = Unit {0}
Shaken is_syn_sent s a = Unit {0}
Shaken is_established s a = (s ≡ true) × (a ≡ true)
Shaken is_close_wait s a = (s ≡ true) × (a ≡ true)
Shaken is_last_ack s a = (s ≡ true) × (a ≡ true)
Shaken _ s a = s ≡ true

||-left : (b c : Bool) → b ≡ true → (b || c) ≡ true
||-left true c e = refl
||-left false c e = cc

pub ||-right : (b c : Bool) → c ≡ true → (b || c) ≡ true
||-right true c e = refl
||-right false c e = e

||-swap : (b c d : Bool) → (b || (c || d)) ≡ (c || (b || d))
||-swap true true d = refl
||-swap true false d = refl
||-swap false c d = refl

||-more : (b c d : Bool) → (c ≡ true → d ≡ true) → (b || c) ≡ true → (b || d) ≡ true
||-more true c d f e = refl
||-more false c d f e = f e

any-middle :
    (f : TcpCall → Bool) (cs : List TcpCall) (c : TcpCall) (ds : List TcpCall)
    → any f (cs ++ c ∷ ds) ≡ (f c || any f (cs ++ ds))
any-middle f [] c ds = refl
any-middle f (b ∷ cs) c ds = rw (any-middle f cs c ds) (||-swap (f b) (f c) (any f (cs ++ ds)))

pub Shaken-more :
    (p : Phase) (s s' a a' : Bool)
    → (s ≡ true → s' ≡ true)
    → (a ≡ true → a' ≡ true)
    → Shaken p s a
    → Shaken p s' a'
Shaken-more is_closed s s' a a' f g h = tt
Shaken-more is_listen s s' a a' f g h = tt
Shaken-more is_syn_sent s s' a a' f g h = tt
Shaken-more is_established s s' a a' f g (h, k) = (f h, g k)
Shaken-more is_close_wait s s' a a' f g (h, k) = (f h, g k)
Shaken-more is_last_ack s s' a a' f g (h, k) = (f h, g k)
Shaken-more _ s s' a a' f g h = f h

abbrev pub ShakenAfter : Phase → Verdict → Bool → Bool → Type 0
ShakenAfter p ignored s a = Shaken p s a
ShakenAfter p forbidden s a = Unit {0}
ShakenAfter p (moved row) s a = Shaken row.phase s a

pub answer-ShakenAfter :
    (p : Phase) (r : Request) (s a : Bool)
    → (has_syn (call_of r) ≡ true → s ≡ true)
    → (has_ack (call_of r) ≡ true → a ≡ true)
    → Shaken p s a
    → ShakenAfter p (answer p r) s a
answer-ShakenAfter is_closed to_open s a f g h = tt
answer-ShakenAfter is_closed to_listen s a f g h = tt
answer-ShakenAfter is_closed to_send s a f g h = tt
answer-ShakenAfter is_listen to_send s a f g h = tt
answer-ShakenAfter is_fin_wait_1 to_send s a f g h = tt
answer-ShakenAfter is_fin_wait_2 to_send s a f g h = tt
answer-ShakenAfter is_close_wait to_send s a f g h = tt
answer-ShakenAfter is_closing to_send s a f g h = tt
answer-ShakenAfter is_last_ack to_send s a f g h = tt
answer-ShakenAfter is_listen to_close s a f g h = tt
answer-ShakenAfter is_syn_sent to_close s a f g h = tt
answer-ShakenAfter is_syn_rcvd to_close s a f g h = h
answer-ShakenAfter is_established to_close s a f g (h, k) = h
answer-ShakenAfter is_close_wait to_close s a f g h = h
answer-ShakenAfter is_listen (to_packet true ack fin rst) s a f g h = f refl
answer-ShakenAfter is_syn_sent (to_packet true true fin rst) s a f g h = (f refl, g refl)
answer-ShakenAfter is_syn_sent (to_packet true false fin rst) s a f g h = f refl
answer-ShakenAfter is_syn_rcvd (to_packet syn true fin rst) s a f g h = (h, g refl)
answer-ShakenAfter is_established (to_packet syn ack true rst) s a f g h = h
answer-ShakenAfter is_fin_wait_1 (to_packet syn true true rst) s a f g h = tt
answer-ShakenAfter is_fin_wait_1 (to_packet syn false true rst) s a f g h = h
answer-ShakenAfter is_fin_wait_1 (to_packet syn true false rst) s a f g h = h
answer-ShakenAfter is_fin_wait_2 (to_packet syn ack true rst) s a f g h = tt
answer-ShakenAfter is_closing (to_packet syn true fin rst) s a f g h = tt
answer-ShakenAfter is_last_ack (to_packet syn true fin rst) s a f g h = tt
answer-ShakenAfter _ _ s a f g h = h

-- If the verdict leads to `q`, what `q` needs has come.
pub after-Shaken :
    (p q : Phase) (v : Verdict) (s a : Bool)
    → after p v ≡ some q
    → ShakenAfter p v s a
    → Shaken q s a
after-Shaken p q ignored s a e h = let f : p ≡ q = cc in subst (λ x. Shaken x s a) f h
after-Shaken p q forbidden s a e h = cc
after-Shaken p q (moved row) s a e h = let f : row.phase ≡ q = cc in subst (λ x. Shaken x s a) f h

-- What a packet among the pending calls has, one that was sent has too.
abbrev pub IsTold : (TcpCall → Bool) → List TcpCall → Bool → Type 0
IsTold f calls t = any f calls ≡ true → t ≡ true

pub sent-IsTold :
    (f : TcpCall → Bool) (calls : List TcpCall) (c : TcpCall) (t : Bool)
    → IsTold f calls t
    → IsTold f (calls ++ c ∷ []) (f c || t)
sent-IsTold f calls c t h e =
    ||-more (f c) (any f (calls ++ [])) t (λ k. h (rw (sym (append-nil calls)) k))
      (sym (any-middle f calls c []) ∙ e)

pub handled-IsTold :
    (f : TcpCall → Bool) (before : List TcpCall) (c : TcpCall) (after : List TcpCall) (t : Bool)
    → IsTold f (before ++ c ∷ after) t
    → (f c ≡ true → t ≡ true) × IsTold f (before ++ after) t
handled-IsTold f before c after t h = (
  λ e. h (any-middle f before c after ∙ ||-left (f c) (any f (before ++ after)) e),
  λ e. h (any-middle f before c after ∙ ||-right (f c) (any f (before ++ after)) e),
)
