-- ===== src/Informer/Follows.antt =====
-- A client that takes a snapshot of an informer and handles the events that follow it has the informer's objects:
-- pkg/kube_events_manager/resource_informer.go.
use shell_operator.Base.{
  any, ap, ◌∙◌, sym, Bool-cases, List, ◌≡◌, String, Option, inr, inl, false, true, some, none,
  nat_key, arith, refl, [], ◌∷◌, string_key,
}
use shell_operator.Watch.{WatchEventType, ObjectAndFilterResult, KubeEvent, Library}
use shell_operator.Informer.{
  same_event_type, ResourceInformer, Watched, handle_watch_event, take_watch_event, pass_taken,
  pass_event, enable_kube_event_cb, get_cached_objects,
}
use shell_operator.Informer.Cache.{handle_watch_event_fixed}
use shell_operator.Informer.Updates.{
  checksum_of, SameChecksums, IsListening, apply_taken, put_events-emitted,
}
use shell_operator.Informer.Taken.{take_watch_event_fixed, taken_follows, entry-filed}
use shell_operator.Informer.Client.{
  looked_at, View, Call, watches, enables, takes_snapshot, cache_of, replay, replay-append,
  Followed, follow_one, follow, called,
}

module _ {O F : Type 0} (lib : Library O F) where
  -- The invariant of the client and its informer.
  pub record IsFollowed (c : Followed O F) : Type 0 where
    pub listens : IsListening c.informer
    pub follows : SameChecksums (replay c.informer.event_buf c.view) (cache_of c.informer)

  -- The events are passed on, or kept for later.
  pass_taken-follows :
      (o : Option (KubeEvent O F)) (ei : ResourceInformer O F) (v : View O F) (k : String)
      → ei.has_event_cb ≡ true
      → ei.emitted ≡ []
      → (ei.event_cb_enabled ≡ true → ei.event_buf ≡ [])
      → checksum_of (apply_taken o (replay ei.event_buf v) k) ≡ checksum_of (cache_of ei k)
      → let ei' = pass_taken (o, ei) in
        checksum_of (replay ei'.event_buf (replay ei'.emitted v) k) ≡ checksum_of (cache_of ei' k)
  unfolding pass_event
  pass_taken-follows none ei v k cb e d h = rw e h
  pass_taken-follows (some ev) ei v k cb e d h = elim (Bool-cases ei.event_cb_enabled) [
    | inl q ↦ rw q (rw (cb, e, d q) (rw (d q) at h))
    | inr q ↦ rw (q, e, replay-append ei.event_buf ev v) h
  ]

  pass_taken-drained :
      (o : Option (KubeEvent O F)) (ei : ResourceInformer O F)
      → (ei.event_cb_enabled ≡ true → ei.event_buf ≡ [])
      → (pass_taken (o, ei)).event_cb_enabled ≡ true
      → (pass_taken (o, ei)).event_buf ≡ []
  unfolding pass_event
  pass_taken-drained none ei d q = d q
  pass_taken-drained (some ev) ei d q = elim (Bool-cases ei.event_cb_enabled) [
    | inl p ↦ ground (arith, d p)
    | inr p ↦ absurd (ground arith)
  ]

  -- The parts of the invariant that most calls keep.
  followed_by :
      (call : Call O) (c : Followed O F)
      → let ei' = called lib call c.informer in
        IsListening c.informer
        → ei'.monitor ≡ c.informer.monitor
        → ei'.stopped ≡ c.informer.stopped
        → ei'.has_event_cb ≡ c.informer.has_event_cb
        → ((k : String) (r : ObjectAndFilterResult O F)
            → cache_of ei' k ≡ some r
            → r.resource_id ≡ k)
        → (ei'.event_cb_enabled ≡ true → ei'.event_buf ≡ [])
        → SameChecksums
            (replay ei'.event_buf (replay ei'.emitted (looked_at lib call c)))
            (cache_of ei')
        → IsFollowed (follow_one lib call c)
  followed_by call c w m s cb f d g = record {
    listens = record {
      running = s ∙ w.running;
      listening = cb ∙ w.listening;
      all_types = λ type.
          ap (λ x. any (λ event. same_event_type event type) x.event_types) m ∙ w.all_types type;
      filed = f;
      drained = d;
      quiet = refl;
    };
    follows = g;
  }

  watch-IsFollowed :
      (type : WatchEventType) (object : Watched O) (c : Followed O F)
      → IsFollowed c
      → IsFollowed (follow_one lib (watches type object) c)
  unfolding handle_watch_event
  watch-IsFollowed type object c w =
      let ei = c.informer in
      let l = w.listens in
      let (m, s, e, cb, b, o) = take_watch_event_fixed lib type object ei in
      let (m', s', e', cb') = handle_watch_event_fixed lib type object ei in
      let (taken, next) = take_watch_event lib type object ei in
      let d : next.event_cb_enabled ≡ true → next.event_buf ≡ [] = λ q. b ∙ l.drained (sym e ∙ q) in
      followed_by (watches type object) c l m' s' cb' (entry-filed lib type object ei l)
        (pass_taken-drained taken next d)
        (λ k.
          pass_taken-follows taken next c.view k (cb ∙ l.listening) (o ∙ l.quiet) d (
            rw b (taken_follows lib type object ei (replay ei.event_buf c.view) k l (w.follows k))))

  enable_off :
      (ei : ResourceInformer O F)
      → IsListening ei
      → ei.event_cb_enabled ≡ false
      → enable_kube_event_cb ei
        ≡ record ei { event_cb_enabled = true; event_buf = []; emitted = ei.event_buf }
  unfolding enable_kube_event_cb
  enable_off ei w q = ground (
    arith,
    w.quiet,
    w.listening,
    put_events-emitted ei.event_buf (record ei { event_cb_enabled = true }),
  )

  enable_on :
      (ei : ResourceInformer O F) → ei.event_cb_enabled ≡ true → enable_kube_event_cb ei ≡ ei
  unfolding enable_kube_event_cb
  enable_on ei q = ground arith

  enable-IsFollowed : (c : Followed O F) → IsFollowed c → IsFollowed (follow_one lib enables c)
  enable-IsFollowed c w =
      let l = w.listens in
      let ei = c.informer in
      elim (Bool-cases ei.event_cb_enabled) [
        | inl q ↦
            let x = enable_on ei q in
            followed_by enables c l (rw x refl) (rw x refl) (rw x refl) (rw x l.filed)
              (rw x l.drained) (λ k. rw (x, l.quiet) (w.follows k))
        | inr q ↦
            let x = enable_off ei l q in
            followed_by enables c l (rw x refl) (rw x refl) (rw x refl) (rw x l.filed)
              (rw x (λ _. refl)) (λ k. rw x (w.follows k))
      ]

  snapshot_off :
      (ei : ResourceInformer O F)
      → ei.event_cb_enabled ≡ false
      → (get_cached_objects (λ m. m) ei).1 ≡ record ei { event_buf = [] }
  unfolding get_cached_objects
  snapshot_off ei q = ground arith

  snapshot_on :
      (ei : ResourceInformer O F)
      → ei.event_cb_enabled ≡ true
      → (get_cached_objects (λ m. m) ei).1 ≡ ei
  unfolding get_cached_objects
  snapshot_on ei q = ground arith

  snapshot-IsFollowed :
      (c : Followed O F) → IsFollowed c → IsFollowed (follow_one lib takes_snapshot c)
  snapshot-IsFollowed c w =
      let l = w.listens in
      let ei = c.informer in
      elim (Bool-cases ei.event_cb_enabled) [
        | inl q ↦
            let x = snapshot_on ei q in
            followed_by takes_snapshot c l (rw x refl) (rw x refl) (rw x refl) (rw x l.filed)
              (rw x l.drained) (λ k. rw (x, l.quiet, l.drained q) refl)
        | inr q ↦
            let x = snapshot_off ei q in
            followed_by takes_snapshot c l (rw x refl) (rw x refl) (rw x refl) (rw x l.filed)
              (rw x (λ _. refl)) (λ k. rw (x, l.quiet) refl)
      ]

  follow-IsFollowed :
      (calls : List (Call O)) (c : Followed O F) → IsFollowed c → IsFollowed (follow lib calls c)
  unfolding follow
  follow-IsFollowed [] c w = w
  follow-IsFollowed (watches type object ∷ calls) c w =
      follow-IsFollowed calls (follow_one lib (watches type object) c)
        (watch-IsFollowed type object c w)
  follow-IsFollowed (enables ∷ calls) c w =
      follow-IsFollowed calls (follow_one lib enables c) (enable-IsFollowed c w)
  follow-IsFollowed (takes_snapshot ∷ calls) c w =
      follow-IsFollowed calls (follow_one lib takes_snapshot c) (snapshot-IsFollowed c w)

  -- For an informer that runs with a callback and whose monitor asks for all types of events, and a
  -- client whose view agrees with its cache: after any watch events, snapshots and calls of
  -- enableKubeEventCb, in any order and one after the other, if events are passed on at the end,
  -- then for every key the view that the client has made of its last snapshot and of the events
  -- since holds an object exactly if the cache does, and with the same checksum. So no event that
  -- changes a checksum is lost, also while events are held back.
  pub follow-SameChecksums :
      (calls : List (Call O)) (c : Followed O F)
      → IsFollowed c
      → (follow lib calls c).informer.event_cb_enabled ≡ true
      → SameChecksums (follow lib calls c).view (cache_of (follow lib calls c).informer)
  follow-SameChecksums calls c w q k =
      let w' = follow-IsFollowed calls c w in rw (w'.listens.drained q) at (w'.follows k)
