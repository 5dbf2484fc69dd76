-- ===== src/Life/Failed.antt =====
-- What a `subscribe` that fails leaves, when `conn_eventcb` has called it.
use php_nsq.Prelude.{
  ◌≡◌, ◌∙◌, true, false, [], ◌∷◌, ◌++◌, if◌then◌else◌, if_true, if_false, if_failed,
}
use php_nsq.Exception.{libevent_could_not_be_initialized, connection_failed}
use php_nsq.Receive.{Host}
use php_nsq.Receive.Backing.{Malloc}
use php_nsq.Session.{conn_eventcb}
use php_nsq.Loop.{Socket, Settings, System, has_address}
use php_nsq.Life.{Who, Happening, closed, broken, Moment, Life, stranded, faulted, perform, happens}

module _ (S : Socket) (A : Malloc) (host : Host) (settings : Settings) (who : Who) where
  abbrev pub moment : Happening → System → S.input.Buf → Moment S A host settings who
  moment h sys b = record { what = h; system = sys; input = b }

  -- Where conn_eventcb, whose bufferevent is not freed yet, calls `subscribe` and that returns, since the
  -- address is known but libevent gives no event base or refuses the connection: behind a closed connection an exception is thrown and the worker goes on with a
  -- timer and without a connection, and behind a broken one the bufferevent is freed twice.
  pub happens-failed :
      (sys : System) (b : S.input.Buf) (l : Life S A host settings who)
      → l.freed ≡ false
      → has_address sys who.name ≡ true
      → (if sys.base_new then sys.connects else false) ≡ false
      → (happens S A host settings who (moment closed sys b) l
          ≡ stranded (record l {
            freed = true;
            thrown =
                l.thrown
                ++ ((if sys.base_new then connection_failed else libevent_could_not_be_initialized)
                    ∷ []);
          }))
        × (happens S A host settings who (moment broken sys b) l ≡ faulted)
  unfolding happens conn_eventcb perform
  happens-failed sys b l kept addressed fails =
      let ended : Life S A host settings who = record l {
        freed = true;
        thrown =
            l.thrown
            ++ ((if sys.base_new then connection_failed else libevent_could_not_be_initialized)
                ∷ []);
      } in
      (
        if_true (has_address sys who.name) _ _ addressed
            ∙ if_failed sys.base_new sys.connects _ _ fails
            ∙ if_false l.freed faulted (stranded ended) kept,
        if_false l.freed _ _ kept
            ∙ if_true (has_address sys who.name) _ _ addressed
            ∙ if_failed sys.base_new sys.connects _ _ fails,
      )
