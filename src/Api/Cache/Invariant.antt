-- ===== src/Api/Cache/Invariant.antt =====
-- Every step of the protocol keeps the stored responses coherent.
use haruki_event_tracker.Prelude.{ℤ, IsI64, Option, refl, arith, All-mono, list_eq, nat_eq}
use haruki_event_tracker.Prelude.HashMap.{remove-Distinct}
use haruki_event_tracker.Prelude.Text.{Text}
use haruki_event_tracker.Api.Cache.Keys.{lower_server}
use haruki_event_tracker.Api.Cache.Keys.Injective.{IsPlain}
use haruki_event_tracker.Api.Cache.Redis.{begin_event_update, incr_epoch, del_dirty}
use haruki_event_tracker.Api.Cache.System.{
  System, Step, begin_update, write_rows, raise_epoch, unmark, look, fetch, write_back, give_up,
  expire, Reach, here, next,
}
use haruki_event_tracker.Api.Cache.Entries.{AreSeparate, Holds-remove}
use haruki_event_tracker.Api.Cache.Coherence.{Inv, reached, write-Inv, drop-Inv, start-Inv}

module _ {D : Type 0} (respond : D → Text → Option Text) (Served : Text → Type 0) (server : Text)
    (event_id : ℤ) (plain : IsPlain (lower_server server)) (he : IsI64 event_id)
    (sep : AreSeparate Served) where
  Step-Inv :
      {t u : System D}
      → Step server event_id respond Served t u
      → Inv respond Served server event_id t
      → Inv respond Served server event_id u
  unfolding begin_event_update incr_epoch del_dirty
  Step-Inv {t} begin_update i = record {
    covered = λ w x. refl;
    small = i.small;
    seen = i.seen;
    pending = i.pending;
    distinct = i.distinct;
    stored = i.stored;
  }
  Step-Inv {t} (write_rows db) i = record {
    covered = λ w x. ground arith;
    small = i.small;
    seen = i.seen;
    pending = All-mono _ _ (λ f p. (p.0, (p.1.0, λ w. cc))) t.pending i.pending;
    distinct = i.distinct;
    stored = λ e s o b hs k. ((i.stored e s o b hs k).0, λ w. cc);
  }
  Step-Inv {t} (raise_epoch b) i = record {
    covered = λ w. cc;
    small = b;
    seen = All-mono _ _ (λ e p. omega (arith, p)) t.seen i.seen;
    pending =
        All-mono _ _ (λ f p. (p.0, (omega (arith, p.1.0), λ w q. absurd (omega (arith, p.1.0)))))
          t.pending i.pending;
    distinct = i.distinct;
    stored = λ e s o c hs k.
        let p = (i.stored e s o c hs k).0 in (omega arith, λ w q. absurd (omega arith));
  }
  Step-Inv {t} unmark i = record {
    covered = λ w x. ground arith;
    small = i.small;
    seen = i.seen;
    pending = i.pending;
    distinct = i.distinct;
    stored = i.stored;
  }
  Step-Inv {t} (look h) i = record {
    covered = i.covered;
    small = i.small;
    seen = (omega arith, i.seen);
    pending = i.pending;
    distinct = i.distinct;
    stored = i.stored;
  }
  Step-Inv {t} (fetch before after e s h hs) i = record {
    covered = i.covered;
    small = i.small;
    seen = i.seen;
    pending = (
      (hs, (reached respond Served server event_id plain he sep t before after e h i, λ w q. refl)),
      i.pending,
    );
    distinct = i.distinct;
    stored = i.stored;
  }
  Step-Inv {t} (write_back before after f h) i =
      write-Inv respond Served server event_id plain he sep t f before after h i
  Step-Inv {t} (give_up before after f h) i =
      drop-Inv respond Served server event_id plain he sep t f before after h i
  Step-Inv {t} (expire k) i = record {
    covered = i.covered;
    small = i.small;
    seen = i.seen;
    pending = i.pending;
    distinct = remove-Distinct k t.redis.strings i.distinct;
    stored = λ e s o b hs g.
        i.stored e s o b hs (Holds-remove server event_id plain he t.redis k e s o i.distinct g);
  }

  pub Reach-Inv :
      {db : D} {t : System D}
      → Reach server event_id respond Served db t
      → Inv respond Served server event_id t
  Reach-Inv here = start-Inv respond Served server event_id plain he sep _
  Reach-Inv (next r s) = Step-Inv s (Reach-Inv r)
