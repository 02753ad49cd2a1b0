-- ===== src/Listener/Service.antt =====
-- Every connection that the listener's thread has accepted is taken by the server in its turn
-- (server/ConnectionListener.cpp).
use legendofstealth.Listener.{popped, take_socket, abort, tcp_round, Listener}
use legendofstealth.Listener.Interleaving.{
  accepts, takes, aborts, later, noted, noted_taken, System, Reach, Reach-IsOrderly, IsOrderly,
}
use legendofstealth.Prelude.{
  get_elem?-lt, ◌++◌, ap, ◌∙◌, get_elem?-prefix, ◌≤◌, append-nil, get_elem?-append_left,
  length-append, arith, ==_ne, ◌+◌, ◌∷◌, length, ◌⊎◌, inr, [], inl, ◌<◌, sym, ◌==◌, All, subst,
  Bool-cases, suc, some, false, get_elem?, List, ◌≡◌, ℕ, refl,
}

-- Steps of both threads, in any order, with the given number of calls of GetNewSocket among them.
pub data Calls : ℕ → System → System → Type 0 where
  none_yet : {s : System} → Calls 0 s s
  accepting :
      {n : ℕ} {s t : System} (socket : ℕ)
      → Calls n s t
      → t.listener.abort_threads ≡ false
      → Calls n s
          (record t { listener = tcp_round socket t.listener; accepted = noted socket t.accepted })
  aborting :
      {n : ℕ} {s t : System} → Calls n s t → Calls n s (record t { listener = abort t.listener })
  taking :
      {n : ℕ} {s t : System}
      → Calls n s t
      → Calls (suc n) s (noted_taken (take_socket t.listener) t)

Calls-Reach : {n : ℕ} {s t : System} → Calls n s t → Reach s → Reach t
Calls-Reach none_yet r = r
Calls-Reach (accepting {t = t} socket c running) r =
    later (Calls-Reach c r) (accepts t socket running)
Calls-Reach (aborting {t = t} c) r = later (Calls-Reach c r) (aborts t)
Calls-Reach (taking {t = t} c) r = later (Calls-Reach c r) (takes t)

-- What was accepted stays at its place.
noted-get :
    (handles : List ℕ) (socket i h : ℕ)
    → get_elem? handles i ≡ some h
    → get_elem? (noted socket handles) i ≡ some h
noted-get handles socket i h e = elim (Bool-cases (socket == 0)) [
  | inl null ↦ rw null e
  | inr real ↦ rw real (get_elem?-append_left handles (socket ∷ []) i h e)
]

noted_taken-accepted : (s : System) (r : ℕ × Listener) → (noted_taken r s).accepted ≡ s.accepted
noted_taken-accepted s (socket, l) = refl

Calls-accepted :
    {n : ℕ} {s t : System} (i h : ℕ)
    → Calls n s t
    → get_elem? s.accepted i ≡ some h
    → get_elem? t.accepted i ≡ some h
Calls-accepted i h none_yet e = e
Calls-accepted i h (accepting {t = t} socket c running) e =
    noted-get t.accepted socket i h (Calls-accepted i h c e)
Calls-accepted i h (aborting c) e = Calls-accepted i h c e
Calls-accepted i h (taking {t = t} c) e =
    subst (λ hs. get_elem? hs i ≡ some h) (sym (noted_taken-accepted t (take_socket t.listener)))
      (Calls-accepted i h c e)

-- A call of GetNewSocket takes the first connection, where one waits.
popped-noted :
    (s : System) (queue : List ℕ)
    → All (λ h. 0 < h) queue
    → ((queue ≡ []) × ((noted_taken (popped queue s.listener) s).taken ≡ s.taken))
      ⊎ (length (noted_taken (popped queue s.listener) s).taken ≡ length s.taken + 1)
popped-noted s [] v = inl (refl, refl)
popped-noted s (x ∷ rest) v =
    inr (rw (==_ne x 0 (λ q. absurd (omega (arith, v.0)))) (length-append s.taken (x ∷ [])))

-- With nothing waiting, all has been taken.
nothing_waits : {s : System} → IsOrderly s → s.listener.new_connections ≡ [] → s.taken ≡ s.accepted
nothing_waits {s} v e = sym (append-nil s.taken) ∙ ap (◌++◌ s.taken) (sym e) ∙ v.in_order

-- The turn of the connection `i` has come where it is taken, or every call has taken one.
abbrev Turn : ℕ → ℕ → System → System → Type 0
Turn i n s t = (i < length t.taken) ⊎ (length s.taken + n ≤ length t.taken)

Calls-Turn :
    {n : ℕ} {s t : System} (i h : ℕ)
    → Reach s
    → Calls n s t
    → get_elem? s.accepted i ≡ some h
    → Turn i n s t
unfolding take_socket
Calls-Turn i h r none_yet e = inr (omega arith)
Calls-Turn i h r (accepting socket c running) e = Calls-Turn i h r c e
Calls-Turn i h r (aborting c) e = Calls-Turn i h r c e
Calls-Turn i h r (taking {n = n} {s = s} {t = t} c) e =
    elim (popped-noted t t.listener.new_connections orderly.handles) [
      | inl k ↦ inl (
          subst (λ hs. i < length hs) (sym (k.1 ∙ nothing_waits orderly k.0))
            (get_elem?-lt t.accepted i h (Calls-accepted i h c e)))
      | inr k ↦ elim (Calls-Turn i h r c e) [
        | inl came ↦ inl (omega (arith, k, came))
        | inr all ↦ inr (omega (arith, k, all))
      ]
    ]
  where
    orderly : IsOrderly t
    orderly = Reach-IsOrderly (Calls-Reach c r)

-- Every connection that was accepted is taken in its turn: from a state that can be reached, in
-- which the connection `h` is the one at the place `i` (from 0) of those accepted so far, and over
-- any steps of both threads in any order, among which the server calls GetNewSocket so often that
-- the calls and the connections taken before are more than `i`, the connection at the place `i` of
-- those taken is `h`.
pub Calls-taken :
    {n : ℕ} {s t : System} (i h : ℕ)
    → Reach s
    → get_elem? s.accepted i ≡ some h
    → Calls n s t
    → i < length s.taken + n
    → get_elem? t.taken i ≡ some h
Calls-taken {t = t} i h r e c enough =
    get_elem?-prefix t.taken t.listener.new_connections i h
      (ap (λ hs. get_elem? hs i) (Reach-IsOrderly (Calls-Reach c r)).in_order
        ∙ Calls-accepted i h c e)
      (elim (Calls-Turn i h r c e) [ inl k ↦ k | inr k ↦ omega (arith, k, enough) ])
