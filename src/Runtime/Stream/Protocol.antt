-- ===== src/Runtime/Stream/Protocol.antt =====
-- The protocol that `_collect_model_stream` (packages/sasori-core/src/sasori_core/runtime.py)
-- enforces on a provider's stream.
use sasori.Base.{
  ℕ, ◌+◌, ◌≤◌, ◌≡◌, refl, ap, Option-cases, Bool, true, false, none, some, List, [], ◌∷◌, ◌++◌, all,
  arith, length, is_some, ◌⊎◌, ◌≢◌, inl, inr,
}
use sasori.Contracts.Types.{ModelReply}
use sasori.Runtime.Detach.{snapshot_model_reply}
use sasori.Runtime.Stream.{
  StreamType, ModelStreamEvent, StreamItem, event, other, Collected, reply, StreamState,
  stream_start, Taken, refused, accepted, take_started, take_counted, take_item, finish,
  collect_from, collect_model_stream, payload_of, max_stream_events, max_stream_bytes,
}

abbrev pub is_delta : StreamItem → Bool
is_delta other = false
is_delta (event e) = elim e.type [
  | StreamType.text_delta ↦ true
  | StreamType.thinking_delta ↦ true
  | StreamType.tool_call_delta ↦ true
  | _ ↦ false
]

-- A terminal event was taken: nothing may follow it.
finished :
    (st : StreamState) (xs : List StreamItem) (r : ModelReply)
    → is_some st.terminal ≡ true
    → (collect_from st xs).0 ≡ reply r
    → xs ≡ []
unfolding collect_from take_item take_counted
finished st [] r t h = refl
finished st (other ∷ xs) r t h = ground arith
finished st (event e ∷ xs) r t h = ground arith

abbrev pub size_of : StreamItem → ℕ
unfolding payload_of
size_of other = 0
size_of (event e) = elim (payload_of e) [ none ↦ 0 | some n ↦ n ]

abbrev pub total_size : List StreamItem → ℕ
total_size [] = 0
total_size (x ∷ xs) = size_of x + total_size xs

abbrev pub is_start : StreamItem → Bool
is_start other = false
is_start (event e) = elim e.type [ StreamType.start ↦ true | _ ↦ false ]

abbrev pub is_done : ModelStreamEvent → Bool
is_done e = elim e.type [ StreamType.done ↦ true | _ ↦ false ]

Taken-cases :
    (t : Taken)
    → ((c : Collected) × (t ≡ refused c))
      ⊎ ((st : StreamState) × (e : ModelStreamEvent) × (t ≡ accepted st e))
Taken-cases (refused c) = inl (c, refl)
Taken-cases (accepted st e) = inr (st, e, refl)

-- What taking one event counts.
take_item-counts :
    (st st' : StreamState) (x : StreamItem) (e : ModelStreamEvent)
    → take_item st x ≡ accepted st' e
    → (st'.event_count ≡ st.event_count + 1)
      × (st'.event_count ≤ max_stream_events)
      × (st'.payload_bytes ≡ st.payload_bytes + size_of x)
      × (st'.payload_bytes ≤ max_stream_bytes)
      × (st'.started ≡ true)
unfolding take_item take_counted take_started payload_of
take_item-counts st st' other e h = ground arith
take_item-counts st st' (event x) e h = ground arith

not-refused :
    (st : StreamState) (x : StreamItem) (r : ModelReply) → take_item st x ≢ refused (reply r)
unfolding take_item take_counted take_started payload_of
not-refused st other r h = ground arith
not-refused st (event x) r h = ground arith

-- A running stream takes a delta and goes on, or a terminal event.
take_item-running :
    (st st' : StreamState) (x : StreamItem) (e : ModelStreamEvent)
    → st.started ≡ true
    → st.terminal ≡ none
    → take_item st x ≡ accepted st' e
    → ((is_delta x ≡ true) × (st'.terminal ≡ none)) ⊎ (is_some st'.terminal ≡ true)
unfolding take_item take_counted take_started payload_of
take_item-running st st' other e s t h = ground arith
take_item-running st st' (event x) e s t h = ground arith

-- The rest of a stream that ends with a reply, once it runs: deltas, then the one terminal event.
record Tail (st : StreamState) (xs : List StreamItem) (r : ModelReply) : Type 0 where
  pub deltas : List StreamItem
  pub last : ModelStreamEvent
  pub authoritative : ModelReply
  pub shape : xs ≡ deltas ++ event last ∷ []
  pub only_deltas : all is_delta deltas ≡ true
  pub ends : is_done last ≡ true
  pub carried : last.reply ≡ some authoritative
  pub detached : r ≡ snapshot_model_reply authoritative
  pub few : st.event_count + length xs ≤ max_stream_events
  pub small : st.payload_bytes + total_size xs ≤ max_stream_bytes

-- A stream whose first event is terminal and which ends with a reply.
terminal-last :
    (st st' : StreamState) (x : StreamItem) (e : ModelStreamEvent) (r : ModelReply)
    → st.started ≡ true
    → st.terminal ≡ none
    → is_some st'.terminal ≡ true
    → take_item st x ≡ accepted st' e
    → finish st' ≡ reply r
    → Tail st (x ∷ []) r
unfolding take_item take_counted take_started payload_of finish
terminal-last st st' other e r s t d h f = ground arith
terminal-last st st' (event x) e r s t d h f = elim (Option-cases x.reply) [
  | inl q ↦ ground arith
  | inr (a, q) ↦
      let counts = take_item-counts st st' (event x) e h in
      record {
        deltas = [];
        last = x;
        authoritative = a;
        shape = refl;
        only_deltas = refl;
        ends = ground arith;
        carried = q;
        detached = ground arith;
        few = ground (arith, counts);
        small = ground (arith, counts);
      }
]

Tail-cons :
    (st st' : StreamState) (x : StreamItem) (xs : List StreamItem) (e : ModelStreamEvent)
    (r : ModelReply)
    → take_item st x ≡ accepted st' e
    → is_delta x ≡ true
    → Tail st' xs r
    → Tail st (x ∷ xs) r
Tail-cons st st' x xs e r h d t =
    let counts = take_item-counts st st' x e h in
    record {
      deltas = x ∷ t.deltas;
      last = t.last;
      authoritative = t.authoritative;
      shape = ap (λ l. x ∷ l) t.shape;
      only_deltas = ground (arith, t.only_deltas);
      ends = t.ends;
      carried = t.carried;
      detached = t.detached;
      few = omega (arith, counts.0, t.few);
      small = omega (arith, counts.2, t.small);
    }

running-Tail :
    (st : StreamState) (xs : List StreamItem) (r : ModelReply)
    → st.started ≡ true
    → st.terminal ≡ none
    → (collect_from st xs).0 ≡ reply r
    → Tail st xs r
unfolding collect_from
running-Tail st [] r s t h = unfold finish in ground arith
running-Tail st (x ∷ xs) r s t h = elim (Taken-cases (take_item st x)) [
  | inl (c, q) ↦ absurd (not-refused st x r (ground arith))
  | inr (st', e, q) ↦
      let counts = take_item-counts st st' x e q in
      let rest : (collect_from st' xs).0 ≡ reply r = ground arith in
      elim (take_item-running st st' x e s t q) [
        | inl (d, none_yet) ↦
            Tail-cons st st' x xs e r q d (running-Tail st' xs r counts.4 none_yet rest)
        | inr d ↦
            let last = finished st' xs r d rest in
            let ended : finish st' ≡ reply r = ground (arith, last, rest) in
            rw last (terminal-last st st' x e r s t d q ended)
      ]
]

-- The first event of a stream.
take_item-first :
    (st st' : StreamState) (x : StreamItem) (e : ModelStreamEvent)
    → st.started ≡ false
    → take_item st x ≡ accepted st' e
    → (is_start x ≡ true) × (st'.terminal ≡ st.terminal)
unfolding take_item take_counted payload_of
take_item-first st st' other e s h = ground arith
take_item-first st st' (event x) e s h = ground arith

-- A provider's stream that gives a reply: `start`, deltas, and `done` with the reply.
pub record IsStream (xs : List StreamItem) (r : ModelReply) : Type 0 where
  pub first : StreamItem
  pub deltas : List StreamItem
  pub last : ModelStreamEvent
  pub authoritative : ModelReply
  pub shape : xs ≡ first ∷ deltas ++ event last ∷ []
  pub starts : is_start first ≡ true
  pub only_deltas : all is_delta deltas ≡ true
  pub ends : is_done last ≡ true
  pub carried : last.reply ≡ some authoritative
  pub detached : r ≡ snapshot_model_reply authoritative
  pub few : length xs ≤ max_stream_events
  pub small : total_size xs ≤ max_stream_bytes

-- A stream gives a reply only if it is one `start`, then deltas, then one `done` that carries the
-- reply, with 4096 events and 4 MiB of text at most; the result is a snapshot of that reply.
pub collect_model_stream-IsStream :
    (xs : List StreamItem) (r : ModelReply) → (collect_model_stream xs).0 ≡ reply r → IsStream xs r
unfolding collect_model_stream collect_from
collect_model_stream-IsStream [] r h = unfold finish in ground arith
collect_model_stream-IsStream (x ∷ xs) r h = elim (Taken-cases (take_item stream_start x)) [
  | inl (c, q) ↦ absurd (not-refused stream_start x r (ground arith))
  | inr (st, e, q) ↦
      let counts = take_item-counts stream_start st x e q in
      let (starts, none_yet) = take_item-first stream_start st x e refl q in
      let t = running-Tail st xs r counts.4 none_yet (ground arith) in
      record {
        first = x;
        deltas = t.deltas;
        last = t.last;
        authoritative = t.authoritative;
        shape = ap (λ l. x ∷ l) t.shape;
        starts = starts;
        only_deltas = t.only_deltas;
        ends = t.ends;
        carried = t.carried;
        detached = t.detached;
        few = omega (arith, counts.0, t.few);
        small = omega (arith, counts.2, t.small);
      }
]
