-- ===== src/AppClient/Protocol/Follows.antt =====
-- That the client follows the protocol (ha-test/hatest/appclient.py).
use spr1n6_osscontest_server.Json.{Json, Fields, get_field}
use spr1n6_osscontest_server.Common.{
  ℕ, ◌+◌, ◌≡◌, refl, sym, subst, String, false, Option, none, some, List, [], ◌∷◌, arith, eqb, ◌==◌,
  ◌||◌, eq_iff, Bool-cases, inl, inr,
}
use spr1n6_osscontest_server.AppClient.{
  Message, initialize, initialized, call, Request, health, search, documents, delete_document, mcp,
  Response, Answer, answered, no_answer, Client, Fault, app_error, attribute_error, Result, ok,
  raised, Method, pure, ◌>>=◌, ◌>>◌, and_then, request, CallResult, new_client,
}
use spr1n6_osscontest_server.AppClient.Session.{
  session_headers, ensure, ensure_for, take_id, post, ask, notify, greet, open_session, mcp_call,
  mcp_search, searches, handled, after_search, response_in, hold_session, set_version, result_of,
  version_of, lift,
}
use spr1n6_osscontest_server.AppClient.Protocol.{
  closed, greeted, usable, phase_of, Numbered, Spoken, IsReady, Speaks,
}

-- What holds of the value and the client where a method returns, and of the client where it raises.
abbrev Ensures :
    {A : Type 0} → (A → Client → Type 0) → (Client → Type 0) → Result A × Client → Type 0
Ensures P Q (ok a, c) = P a c
Ensures P Q (raised e, c) = Q c

and_then-Ensures :
    {A B : Type 0} (P : A → Client → Type 0) (Q : Client → Type 0) (R : B → Client → Type 0)
    (x : Result A × Client) (f : A → Method B)
    → Ensures P Q x
    → ((a : A) (c : Client) → P a c → Ensures R Q (f a c))
    → Ensures R Q (and_then x f)
and_then-Ensures P Q R (ok a, c) f h k = k a c h
and_then-Ensures P Q R (raised e, c) f h k = h

Ensures-mono :
    {A : Type 0} (P R : A → Client → Type 0) (Q : Client → Type 0) (x : Result A × Client)
    → ((a : A) (c : Client) → P a c → R a c)
    → Ensures P Q x
    → Ensures R Q x
Ensures-mono P R Q (ok a, c) k h = k a c h
Ensures-mono P R Q (raised e, c) k h = h

abbrev sent : Message → Client → Client
sent m c = record c { requests = mcp m (session_headers c) ∷ c.requests }

module _ (server : List Request → Answer) (loads : String → Option Json) where
  post-sent :
      (m : Message) (c : Client) (Q : Client → Type 0)
      → Q (sent m c)
      → Ensures (λ r d. d ≡ sent m c) Q (post server loads m c)
  unfolding post
  post-sent m c Q h = by_answer (server (mcp m (session_headers c) ∷ c.requests))
    where
      by_answer :
          (a : Answer)
          → Ensures
              (λ r d. d ≡ sent m c)
              Q
              (spr1n6_osscontest_server.AppClient.answer_to server a (sent m c))
      by_answer (answered r) = refl
      by_answer (no_answer e) = h

  lift-Ensures :
      {A B : Type 0} (P : B → Client → Type 0) (Q : Client → Type 0) (r : Result A) (c : Client)
      (f : A → Method B)
      → Q c
      → ((a : A) → Ensures P Q (f a c))
      → Ensures P Q (and_then (lift r c) f)
  lift-Ensures P Q (ok a) c f h k = k a
  lift-Ensures P Q (raised e) c f h k = h

  ask-sent :
      (m : Message) (n : ℕ) (c : Client) (Q : Client → Type 0)
      → Q (sent m c)
      → Ensures (λ a d. d ≡ sent m c) Q (ask server loads m n c)
  unfolding ask
  ask-sent m n c Q h =
      and_then-Ensures (λ r d. d ≡ sent m c) Q (λ a d. d ≡ sent m c) (post server loads m c) _
        (post-sent m c Q h)
        (λ r d e. elim (Bool-cases (eqb r.status 200)) [
          | inl t ↦ rw t (
              lift-Ensures {A = Fields} {B = Fields × Option String} (λ a d. d ≡ sent m c) Q
                (response_in loads r n) d (λ fields. pure (fields, r.header "Mcp-Session-Id"))
                (subst Q (sym e) h) (λ a. e))
          | inr f ↦ rw f (subst Q (sym e) h)
        ])

  notify-sent :
      (m : Message) (c : Client) (Q : Client → Type 0)
      → Q (sent m c)
      → Ensures (λ a d. d ≡ sent m c) Q (notify server loads m c)
  unfolding notify
  notify-sent m c Q h =
      and_then-Ensures (λ r d. d ≡ sent m c) Q (λ a d. d ≡ sent m c) (post server loads m c) _
        (post-sent m c Q h)
        (λ r d e. elim (Bool-cases (eqb r.status 200 || eqb r.status 202)) [
          | inl t ↦ rw t e
          | inr f ↦ rw f (subst Q (sym e) h)
        ])

  -- A client that asked for a session and holds none.
  record IsGreeted (c : Client) : Type 0 where
    traced : phase_of c.requests ≡ some greeted
    numbered : Numbered (c.last_id + 1) c.requests

  greeted-Spoken : (c : Client) → IsGreeted c → Spoken c
  greeted-Spoken c g = record { phase = greeted; traced = g.traced; numbered = g.numbered }

  -- The client that holds a session, and has not announced it.
  abbrev holding : String → Client → Client
  holding s c = record c { session = some s }

  announced-IsReady :
      (s : String) (c : Client)
      → (s == "") ≡ false
      → IsGreeted c
      → c.session ≡ some s
      → IsReady (sent initialized c)
  announced-IsReady s c f g e = record {
    name = s;
    holds = e;
    present = f;
    traced = rw (g.traced, e, f) refl;
    numbered = g.numbered;
  }

  ready-Spoken : (c : Client) → IsReady c → Spoken c
  ready-Spoken c r = record { phase = usable r.name; traced = r.traced; numbered = r.numbered }

  notify-IsReady :
      (m : Message) (c : Client)
      → IsReady (sent m c)
      → Ensures (λ a d. IsReady d) Spoken (notify server loads m c)
  notify-IsReady m c h =
      Ensures-mono (λ a d. d ≡ sent m c) (λ a d. IsReady d) Spoken (notify server loads m c)
        (λ a d e. subst IsReady (sym e) h) (notify-sent m c Spoken (ready-Spoken (sent m c) h))

  session_headers-IsReady :
      (r : Result Fields) (s : String) (c : Client)
      → (s == "") ≡ false
      → IsGreeted c
      → Ensures
          (λ a d. IsReady d)
          Spoken
          ((hold_session (some s)
              >> lift r
              >>= (λ result. set_version (version_of (get_field "protocolVersion" result)))
              >> notify server loads initialized)
            c)
  session_headers-IsReady (raised e) s c f g = record {
    phase = greeted;
    traced = g.traced;
    numbered = g.numbered;
  }
  session_headers-IsReady (ok result) s c f g =
      notify-IsReady initialized
        (record c { session = some s; version = version_of (get_field "protocolVersion" result) })
        (announced-IsReady s _ f (record { traced = g.traced; numbered = g.numbered }) refl)

  greet-IsReady :
      (fields : Fields) (s : Option String) (c : Client)
      → IsGreeted c
      → Ensures (λ a d. IsReady d) Spoken (greet server loads fields s c)
  unfolding greet
  greet-IsReady fields none c g = greeted-Spoken c g
  greet-IsReady fields (some s) c g = elim (Bool-cases (s == "")) [
    | inl t ↦ rw t (greeted-Spoken c g)
    | inr f ↦ rw f (session_headers-IsReady (result_of (get_field "result" fields)) s c f g)
  ]

  -- The request for a session, with the next id and no session in the headers.
  asked-IsGreeted :
      (c : Client)
      → c.session ≡ none
      → Spoken c
      → IsGreeted (sent (initialize (c.last_id + 1)) (record c { last_id = c.last_id + 1 }))
  asked-IsGreeted c e p = record {
    traced = rw (p.traced, e) refl;
    numbered = (omega arith, p.numbered);
  }

  open_session-IsReady :
      (c : Client)
      → c.session ≡ none
      → Spoken c
      → Ensures (λ a d. IsReady d) Spoken (open_session server loads c)
  unfolding open_session
  open_session-IsReady c e p =
      let c1 = record c { last_id = c.last_id + 1 } in
      let m = initialize (c.last_id + 1) in
      let g = asked-IsGreeted c e p in
      and_then-Ensures (λ a d. d ≡ sent m c1) Spoken (λ a d. IsReady d)
        (ask server loads m (c.last_id + 1) c1) _
        (ask-sent m (c.last_id + 1) c1 Spoken (greeted-Spoken (sent m c1) g))
        (λ a d k. greet-IsReady a.0 a.1 d (subst IsGreeted (sym k) g))

  -- A call with the next id, under the session that the client holds.
  call-IsReady :
      (query : String) (c : Client)
      → IsReady c
      → IsReady (sent (call (c.last_id + 1) query) (record c { last_id = c.last_id + 1 }))
  call-IsReady query c r = record {
    name = r.name;
    holds = r.holds;
    present = r.present;
    traced = rw (r.traced, r.holds, r.present, (eq_iff r.name r.name).1 refl) refl;
    numbered = (omega arith, r.numbered);
  }

  ensure_for-IsReady :
      (o : Option String) (c : Client)
      → c.session ≡ o
      → Speaks c
      → Ensures (λ a d. IsReady d) Spoken (ensure_for server loads o c)
  unfolding ensure_for
  ensure_for-IsReady none c e p = open_session-IsReady c e p.spoken
  ensure_for-IsReady (some s) c e p = p.ready s e

  ensure-IsReady :
      (c : Client) → Speaks c → Ensures (λ a d. IsReady d) Spoken (ensure server loads c)
  unfolding ensure
  ensure-IsReady c p = ensure_for-IsReady c.session c refl p

  mcp_call-IsReady :
      (query : String) (c : Client)
      → Speaks c
      → Ensures (λ a d. IsReady d) Spoken (mcp_call server loads query c)
  unfolding mcp_call
  mcp_call-IsReady query c p =
      and_then-Ensures (λ n d. IsReady (sent (call n query) d)) Spoken (λ a d. IsReady d)
        (and_then (ensure server loads c) (λ _. take_id)) _
        (and_then-Ensures (λ a d. IsReady d) Spoken (λ n d. IsReady (sent (call n query) d))
          (ensure server loads c) (λ _. take_id) (ensure-IsReady c p)
          (λ a d r. call-IsReady query d r))
        (λ n d r.
          Ensures-mono (λ a e. e ≡ sent (call n query) d) (λ a e. IsReady e) Spoken _
            (λ a e k. subst IsReady (sym k) r)
            (ask-sent (call n query) n d Spoken (ready-Spoken _ r)))

  ready-Speaks : (c : Client) → IsReady c → Speaks c
  ready-Speaks c r = record { spoken = ready-Spoken c r; ready = λ s e. r }

  Speaks-Ensures :
      {A : Type 0} (r : Result A) (c : Client) → Speaks c → Ensures (λ a d. Speaks d) Spoken (r, c)
  Speaks-Ensures (ok a) c p = p
  Speaks-Ensures (raised e) c p = p.spoken

  -- A client that drops its session.
  dropped-Speaks : (c : Client) → Spoken c → Speaks (record c { session = none })
  dropped-Speaks c p = record {
    spoken = record { phase = p.phase; traced = p.traced; numbered = p.numbered };
    ready = λ s e. absurd (cc);
  }

  module _ (shown : Option Json → String) where
    handled-Speaks :
        (x : Result (Fields × Option String) × Client)
        → Ensures (λ a d. IsReady d) Spoken x
        → Ensures (λ a d. Speaks d) Spoken (handled server loads shown x)
    handled-Speaks (ok a, c) r = Speaks-Ensures _ c (ready-Speaks c r)
    handled-Speaks (raised (app_error e), c) p = dropped-Speaks c p
    handled-Speaks (raised attribute_error, c) p = p

    mcp_search-Speaks :
        (query : String) (c : Client)
        → Speaks c
        → Ensures (λ a d. Speaks d) Spoken (mcp_search server loads shown query c)
    unfolding mcp_search
    mcp_search-Speaks query c p =
        handled-Speaks (mcp_call server loads query c) (mcp_call-IsReady query c p)

    after_search-Spoken :
        (x : Result CallResult × Client) (next : Client → Client)
        → Ensures (λ a d. Speaks d) Spoken x
        → ((c : Client) → Speaks c → Spoken (next c))
        → Spoken (after_search server loads shown x next)
    after_search-Spoken (ok r, c) next h k = k c h
    after_search-Spoken (raised e, c) next h k = h

    searches-Spoken :
        (queries : List String) (c : Client)
        → Speaks c
        → Spoken (searches server loads shown queries c)
    unfolding searches
    searches-Spoken [] c p = p.spoken
    searches-Spoken (query ∷ queries) c p =
        after_search-Spoken (mcp_search server loads shown query c)
          (searches server loads shown queries) (mcp_search-Speaks query c p)
          (λ d h. searches-Spoken queries d h)

    -- Whatever the server answers, and whatever is searched for, the requests of a new client
    -- follow the protocol: a session is asked for with no session in the headers, announced by the
    -- next message, and named by every call from there on; and the ids of the messages increase.
    pub new_client-Spoken :
        (queries : List String) → Spoken (searches server loads shown queries new_client)
    new_client-Spoken queries = searches-Spoken queries new_client (record {
      spoken = record { phase = closed; traced = refl; numbered = tt };
      ready = λ s e. absurd (cc);
    })
