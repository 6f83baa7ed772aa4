-- ===== src/RecordGate/Export/Order.antt =====
-- bridge.py: the order of the events that are accepted for an export.
use vap_spec.Base.{◌≡◌, refl, sym, Bool, true, false, not, some, String, List, [], ◌∷◌, arith}
use vap_spec.Runtime.Json.{Json}
use vap_spec.Runtime.Request.{check}
use vap_spec.RecordGate.Envelope.{Jcs}
use vap_spec.RecordGate.Audit.Once.{bind-eq_some}
use vap_spec.RecordGate.Export.{
  EventType, request_event, dispatch_event, result_event, unknown_event, has_type, Seen, ExportKeys,
  event_type, is_authorized_again, is_receipted, next_seen, validate_event, validate_all,
  nothing_seen, validate_events,
}

-- Where an event may stand, after those of the types in a list.
abbrev pub MayFollow : List EventType → EventType → Type 0
MayFollow before request_event = Unit
MayFollow before dispatch_event = has_type request_event before ≡ true
MayFollow before unknown_event =
    (has_type request_event before ≡ true)
    × (has_type dispatch_event before ≡ true)
    × (has_type result_event before ≡ false)
MayFollow before result_event =
    (has_type request_event before ≡ true) × (has_type dispatch_event before ≡ true)

module _ (lib : Jcs) (keys : ExportKeys) (oid od : String) where
  -- An event is signed for the operation and is the first of its type, and stands where it may; a
  -- request event records an authorization that holds, and a result event a receipt.
  pub record IsPlaced (before : List EventType) (event : Json) (t : EventType) : Type 0 where
    pub payload : Json
    pub typed : event_type lib keys oid od event ≡ some (t, payload)
    pub first : has_type t before ≡ false
    pub follows : MayFollow before t
    pub authorized_again : t ≡ request_event → is_authorized_again lib keys oid od payload ≡ some tt
    pub receipted : t ≡ result_event → is_receipted lib keys oid od payload ≡ some tt

  -- Each event is placed after those before it; the last index is the types in reverse.
  pub data AreOrdered : List EventType → List Json → List EventType → Type 0 where
    stop : (before : List EventType) → AreOrdered before [] before
    step :
        (before after : List EventType) (event : Json) (rest : List Json) (t : EventType)
        → IsPlaced before event t
        → AreOrdered (t ∷ before) rest after
        → AreOrdered before (event ∷ rest) after

  -- The flags say what was seen.
  record Agrees (s : Seen) : Type 0 where
    requests : s.request_seen ≡ has_type request_event s.seen
    results : s.result_seen ≡ has_type result_event s.seen

  record Next (t : EventType) (payload : Json) (s s' : Seen) : Type 0 where
    agrees : Agrees s'
    grown : s'.seen ≡ t ∷ s.seen
    follows : MayFollow s.seen t
    authorized_again : t ≡ request_event → is_authorized_again lib keys oid od payload ≡ some tt
    receipted : t ≡ result_event → is_receipted lib keys oid od payload ≡ some tt

  next_seen-Next :
      (t : EventType) (payload : Json) (s s' : Seen)
      → Agrees s
      → next_seen lib keys oid od t payload (record s { seen = t ∷ s.seen }) ≡ some s'
      → Next t payload s s'
  unfolding next_seen
  next_seen-Next request_event payload s s' a h =
      let (u, e0, h0) = bind-eq_some (is_authorized_again lib keys oid od payload) _ s' h in
      let r = a.results in
      record {
        agrees = record { requests = ground arith; results = ground (arith, r) };
        grown = ground arith;
        follows = tt;
        authorized_again = λ k. e0;
        receipted = λ k. absurd cc;
      }
  next_seen-Next dispatch_event payload s s' a h =
      let q = a.requests in
      let r = a.results in
      record {
        agrees = record { requests = ground (arith, q); results = ground (arith, r) };
        grown = ground arith;
        follows = ground (arith, q);
        authorized_again = λ k. absurd cc;
        receipted = λ k. absurd cc;
      }
  next_seen-Next unknown_event payload s s' a h =
      let q = a.requests in
      let r = a.results in
      record {
        agrees = record { requests = ground (arith, q); results = ground (arith, r) };
        grown = ground arith;
        follows = (ground (arith, q), ground arith, ground (arith, r));
        authorized_again = λ k. absurd cc;
        receipted = λ k. absurd cc;
      }
  next_seen-Next result_event payload s s' a h =
      let q = a.requests in
      let r = a.results in
      record {
        agrees = record { requests = ground (arith, q); results = ground (arith, r) };
        grown = ground arith;
        follows = (ground (arith, q), ground arith);
        authorized_again = λ k. absurd cc;
        receipted = λ k. ground arith;
      }

  validate_all-AreOrdered :
      (events : List Json) (s s' : Seen)
      → Agrees s
      → validate_all lib keys oid od events s ≡ some s'
      → Agrees s' × AreOrdered s.seen events s'.seen
  unfolding validate_all validate_event
  validate_all-AreOrdered [] s s' a h = rw (sym (same s s' h)) (a, stop s.seen)
    where
      same : (s s' : Seen) → some s ≡ some s' → s ≡ s'
      same s s' h = cc
  validate_all-AreOrdered (event ∷ rest) s s' a h =
      let ((t, s1), e0, h0) = bind-eq_some (validate_event lib keys oid od event s) _ s' h in
      let ((u, payload), e1, h1) = bind-eq_some (event_type lib keys oid od event) _ (t, s1) e0 in
      let (first, e2, h2) = bind-eq_some (check (not (has_type u s.seen))) _ (t, s1) h1 in
      let (s2, e3, h3) =
        bind-eq_some (next_seen lib keys oid od u payload (record s { seen = u ∷ s.seen })) _
          (t, s1) h2 in
      let n = next_seen-Next u payload s s2 a e3 in
      let tu : u ≡ t = ground arith in
      let su : s2 ≡ s1 = ground arith in
      let (agrees, ordered) = validate_all-AreOrdered rest s2 s' n.agrees (rw su h0) in
      (
        agrees,
        step s.seen s'.seen event rest u
            (record {
              payload = payload;
              typed = e1;
              first = ground arith;
              follows = n.follows;
              authorized_again = n.authorized_again;
              receipted = n.receipted;
            })
            (rw (sym n.grown) ordered),
      )

  -- Events that are accepted are signed events of the operation, each type at most once: the request
  -- is before every other, the dispatch is before an unknown outcome and before the result, and no
  -- unknown outcome is after the result; the request records an authorization that holds at its
  -- time, and the result a receipt of the backend. The answer says whether there is a result.
  pub validate_events-AreOrdered :
      (events : List Json) (result_seen : Bool)
      → validate_events lib keys oid od events ≡ some result_seen
      → (types : List EventType) × AreOrdered [] events types
        × (result_seen ≡ has_type result_event types)
  unfolding validate_events
  validate_events-AreOrdered events result_seen h =
      let (s, e0, h0) =
        bind-eq_some (validate_all lib keys oid od events (nothing_seen lib keys oid od)) _
          result_seen h in
      let (agrees, ordered) =
        validate_all-AreOrdered events (nothing_seen lib keys oid od) s
          (record { requests = refl; results = refl }) e0 in
      let r = agrees.results in (s.seen, ordered, ground (arith, r))
