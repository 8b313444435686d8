-- ===== src/RepositoryService/Ingestion/Deliveries.antt =====
-- The ingestion handler on its queue: repository-service/src/repository_service/worker.py run by
-- handle_one of libs/repoviva-common/src/repoviva_common/messaging.py.
use mathlib.Core.Bool.{false≢true}
use repo_viva.Base.{
  ℕ, ◌≡◌, refl, sym, subst, String, Bool, true, false, Option, some, List, [], ◌∷◌,
}
use repo_viva.Common.Messaging as Messaging
use repo_viva.Common.Messaging.{
  Message, Received, Act, handled, deleted, HandlerEnd, handle_one, after_handler, acknowledge,
}
use repo_viva.RepositoryService.Ingestion.{
  State, Delivery, Ending, returns, raises, dies, handle_ingestion_job,
}
use repo_viva.RepositoryService.Ingestion.Outcomes.{Announced, handled_is_announced}

abbrev pub handler_end : Ending → HandlerEnd
handler_end returns = Messaging.returns
handler_end raises = Messaging.raises
handler_end dies = Messaging.dies

-- The handler, for a repository and a URL read from the message's data and what each delivery
-- meets on its way.
abbrev pub ingestion_handler :
    (Message → ℕ × String) → (Message → Delivery) → String → Message → State → State × HandlerEnd
ingestion_handler read meets request_id message st =
    let (rid, url) = read message in
    let (after, end) = handle_ingestion_job st rid url (meets message) in (after, handler_end end)

abbrev pub deletes : List Act → Bool
deletes [] = false
deletes (handled r b ∷ acts) = deletes acts
deletes (deleted r ∷ acts) = true

returned : (end : Ending) → handler_end end ≡ Messaging.returns → end ≡ returns
returned returns h = refl
returned raises h = cc
returned dies h = cc

module _ (validate : String → Option Message)
    (handler : String → Message → State → State × HandlerEnd) (raw : Received) where
  -- A deletion shows that the handler returned, and leaves the state as it did.
  acknowledged : (st : State) (b : Bool) → (acknowledge validate handler raw b st).0 ≡ st
  acknowledged st true = refl
  acknowledged st false = refl

  deletes-returned :
      (st : State) (end : HandlerEnd)
      → deletes (after_handler validate handler raw (st, end)).1 ≡ true
      → (end ≡ Messaging.returns) × ((after_handler validate handler raw (st, end)).0 ≡ st)
  deletes-returned st Messaging.returns h = (refl, acknowledged st raw.delete_raises)
  deletes-returned st Messaging.raises h = absurd (false≢true h)
  deletes-returned st Messaging.dies h = absurd (false≢true h)

-- A message that Repository Service's worker deletes has settled its repository: the job is
-- `ready` and the last event that the bus took is `completed`, or it is `failed` and that event is
-- `ingestion_failed` with the job's own error text.
pub deleted_is_Announced :
    (validate : String → Option Message) (read : Message → ℕ × String) (meets : Message → Delivery)
    (raw : Received) (message : Message) (st : State)
    → validate raw.body ≡ some message
    → deletes (handle_one validate (ingestion_handler read meets) raw st).1 ≡ true
    → Announced (read message).0 (handle_one validate (ingestion_handler read meets) raw st).0
unfolding handle_one
deleted_is_Announced validate read meets raw message st reads gone =
    let rid = (read message).0 in
    let after = handle_ingestion_job st rid (read message).1 (meets message) in
    let gone' : deletes
          (after_handler validate (ingestion_handler read meets) raw
            (after.0, handler_end after.1)).1
        ≡ true =
      rw reads at gone in
    let (end, same) =
      deletes-returned validate (ingestion_handler read meets) raw after.0 (handler_end after.1)
        gone' in
    rw reads (
      subst (Announced rid) (sym same)
        (handled_is_announced st rid (read message).1 (meets message) (returned after.1 end)))
