-- ===== src/Common/Messaging/Acks.antt =====
-- Which messages a worker deletes: libs/repoviva-common/src/repoviva_common/messaging.py.
use repo_viva.Base.{◌≡◌, refl, String, Bool, true, false, Option, none, some, List, [], ◌∷◌, ◌++◌}
use repo_viva.Common.RequestId.{scope_id}
use repo_viva.Common.Messaging.{
  Message, Received, Act, handled, deleted, Ending, goes_on, raised, died, HandlerEnd, returns,
  raises, dies, handle_one, handle_all, poll, after_handler, run_handler, acknowledge, and_then,
}

-- Each handler that returned is followed by the deletion of its message, and nothing else is
-- deleted; only where an exception left the loop may the last deletion be missing.
abbrev pub Acknowledged : List Act → Ending → Type 0
Acknowledged [] end = Unit
Acknowledged (handled r false ∷ acts) end = Acknowledged acts end
Acknowledged (handled r true ∷ deleted r' ∷ acts) end = (r ≡ r') × Acknowledged acts end
Acknowledged (handled r true ∷ handled r' b ∷ acts) end = ⊥
Acknowledged (handled r true ∷ []) end = end ≡ raised
Acknowledged (deleted r ∷ acts) end = ⊥

Acknowledged-append :
    (acts more : List Act) (end : Ending)
    → Acknowledged acts goes_on
    → Acknowledged more end
    → Acknowledged (acts ++ more) end
Acknowledged-append [] more end h k = k
Acknowledged-append (handled r false ∷ acts) more end h k = Acknowledged-append acts more end h k
Acknowledged-append (handled r true ∷ deleted r' ∷ acts) more end h k =
    (h.0, Acknowledged-append acts more end h.1 k)
Acknowledged-append (handled r true ∷ handled r' b ∷ acts) more end h k = absurd h
Acknowledged-append (handled r true ∷ []) more end h k = absurd (cc h)
Acknowledged-append (deleted r ∷ acts) more end h k = absurd h

module _ {ℓ} {S : Type ℓ} (validate : String → Option Message)
    (handler : String → Message → S → S × HandlerEnd) where
  acknowledge-Acknowledged :
      (raw : Received) (b : Bool) (s : S)
      → let r = acknowledge validate handler raw b s in Acknowledged r.1 r.2
  acknowledge-Acknowledged raw true s = refl
  acknowledge-Acknowledged raw false s = (refl, tt)

  after_handler-Acknowledged :
      (raw : Received) (a : S × HandlerEnd)
      → let r = after_handler validate handler raw a in Acknowledged r.1 r.2
  after_handler-Acknowledged raw (s, dies) = tt
  after_handler-Acknowledged raw (s, raises) = tt
  after_handler-Acknowledged raw (s, returns) = acknowledge-Acknowledged raw raw.delete_raises s

  handle_one-Acknowledged :
      (raw : Received) (s : S) → let r = handle_one validate handler raw s in Acknowledged r.1 r.2
  unfolding handle_one
  handle_one-Acknowledged raw s = go (validate raw.body)
    where
      go :
          (o : Option Message)
          → let r = run_handler validate handler raw o s in Acknowledged r.1 r.2
      go none = tt
      go (some m) =
          after_handler-Acknowledged raw (handler (scope_id raw.fresh_id m.request_id) m s)

  and_then-Acknowledged :
      (r : S × List Act × Ending) (rest : S → S × List Act × Ending)
      → Acknowledged r.1 r.2
      → ((s : S) → let q = rest s in Acknowledged q.1 q.2)
      → let q = and_then validate handler r rest in Acknowledged q.1 q.2
  and_then-Acknowledged (s, acts, raised) rest h k = h
  and_then-Acknowledged (s, acts, died) rest h k = h
  and_then-Acknowledged (s, acts, goes_on) rest h k =
      Acknowledged-append acts (rest s).1 (rest s).2 h (k s)

  handle_all-Acknowledged :
      (raws : List Received) (s : S)
      → let r = handle_all validate handler raws s in Acknowledged r.1 r.2
  unfolding handle_all
  handle_all-Acknowledged [] s = tt
  handle_all-Acknowledged (raw ∷ raws) s =
      and_then-Acknowledged (handle_one validate handler raw s) (handle_all validate handler raws)
        (handle_one-Acknowledged raw s) (handle_all-Acknowledged raws)

  -- Whatever a worker receives and however its handler ends, it deletes a message directly after
  -- the handler returned for it and at no other time; the deletion is missing only where it
  -- raised itself, which ends the worker.
  pub poll-Acknowledged :
      (rounds : List (Option (List Received))) (s : S)
      → let r = poll validate handler rounds s in Acknowledged r.1 r.2
  unfolding poll
  poll-Acknowledged [] s = tt
  poll-Acknowledged (none ∷ rounds) s = poll-Acknowledged rounds s
  poll-Acknowledged (some raws ∷ rounds) s =
      and_then-Acknowledged (handle_all validate handler raws s) (poll validate handler rounds)
        (handle_all-Acknowledged raws s) (poll-Acknowledged rounds)
