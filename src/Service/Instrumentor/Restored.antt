-- ===== src/Service/Instrumentor/Restored.antt =====
-- _propagation.py and __init__.py: the entry points after `_uninstrument`.
use opentelemetry_openstack.Prelude.{String, ◌≡◌, refl, ap, ◌∙◌, Bool, true, false, Option, []}
use opentelemetry_openstack.Py.Value.{ok}
use opentelemetry_openstack.Py.Exec.{pure}
use opentelemetry_openstack.Py.Exec.Laws.{bind-ok}
use opentelemetry_openstack.Py.Dict.{NodupKeys, lookup}
use opentelemetry_openstack.Py.Wrapt.{
  Target, target_key, Wrapt, Replaces, Present, wrap_all, targets,
}
use opentelemetry_openstack.Py.Wrapt.Laws.{wrap_all-IsWrapped, unwrap_all-IsWrapped}
use opentelemetry_openstack.Service.Backend.{Backends, select_backend}
use opentelemetry_openstack.Service.Instrumentor.{
  Wrapper, Installed, entry_points, eventlet_spawns, futurist_submits, install, uninstall, Process,
  kept, dropped, keep_wraps, set_backend, instrument, uninstrument,
}

-- No entry point is wrapped twice.
NodupKeys-flags :
    (e t g : Bool)
    → NodupKeys (entry_points (record { eventlet = e; thread_pool = t; green_thread_pool = g }))
unfolding entry_points eventlet_spawns futurist_submits lookup
NodupKeys-flags true true true =
    (refl, (refl, (refl, (refl, (refl, (refl, (refl, (refl, (refl, tt)))))))))
NodupKeys-flags true true false = (refl, (refl, (refl, (refl, (refl, (refl, (refl, (refl, tt))))))))
NodupKeys-flags true false true = (refl, (refl, (refl, (refl, (refl, (refl, (refl, (refl, tt))))))))
NodupKeys-flags true false false = (refl, (refl, (refl, (refl, (refl, (refl, (refl, tt)))))))
NodupKeys-flags false true true = (refl, (refl, (refl, (refl, tt))))
NodupKeys-flags false true false = (refl, (refl, (refl, tt)))
NodupKeys-flags false false true = (refl, (refl, (refl, tt)))
NodupKeys-flags false false false = (refl, (refl, tt))

NodupKeys-entry_points : (i : Installed) → NodupKeys (entry_points i)
NodupKeys-entry_points i = NodupKeys-flags i.eventlet i.thread_pool i.green_thread_pool

module _ (P : Wrapt Wrapper) (replaces : Replaces P) (i : Installed) where
  -- `install` on modules with all entry points returns what it wrapped.
  install-ok :
      (m : P.Modules)
      → Present P (entry_points i) m
      → install P i m ≡ (ok (targets (entry_points i)), (wrap_all P (entry_points i) m).1)
  unfolding install pure
  install-ok m present =
      bind-ok (λ _. pure (targets (entry_points i))) (wrap_all P (entry_points i)) m tt
        (wrap_all-IsWrapped P replaces (entry_points i) m (NodupKeys-entry_points i) present).0

  module _ (B : Backends) (available : Bool) (variable requested : Option String) (p : Process P B)
      (selects : (select_backend B available variable requested p.backend).0 ≡ ok tt)
      (present : Present P (entry_points i) p.modules) where
    abbrev instrumented : Process P B
    instrumented = record {
      modules = (wrap_all P (entry_points i) p.modules).1;
      backend = (select_backend B available variable requested p.backend).1;
      wraps = targets (entry_points i);
    }

    instrument-ok : instrument P B i available variable requested p ≡ (ok tt, instrumented)
    unfolding instrument keep_wraps set_backend
    instrument-ok =
        bind-ok (λ _. keep_wraps P B i) (set_backend P B available variable requested) p tt selects
        ∙ ap (kept P B (set_backend P B available variable requested p).1)
            (install-ok p.modules present)

    -- Where the entry points of what is installed exist and the choice of the backend does not
    -- raise, `_instrument` and then `_uninstrument` both return; every function of the modules is
    -- what it was, and the instrumentor keeps no targets.
    pub uninstrument-instrument_all :
        ((instrument P B i available variable requested p).0 ≡ ok tt)
        × ((uninstrument P B (instrument P B i available variable requested p).1).0 ≡ ok tt)
        × ((j : Target)
            → P.resolve
                (uninstrument P B (instrument P B i available variable requested p).1).1.modules
                j
              ≡ P.resolve p.modules j)
        × ((uninstrument P B (instrument P B i available variable requested p).1).1.wraps ≡ [])
    unfolding uninstrument uninstall
    uninstrument-instrument_all =
        let (returned, back) =
          unwrap_all-IsWrapped P replaces (entry_points i) p.modules instrumented.modules
            (NodupKeys-entry_points i) present
            (wrap_all-IsWrapped P replaces (entry_points i) p.modules (NodupKeys-entry_points i)
              present).1 in
        let undone : uninstrument P B instrumented
            ≡ dropped P B instrumented
                (ok tt, (uninstall P instrumented.wraps instrumented.modules).1) =
          ap
            (λ r.
              dropped P B instrumented (r, (uninstall P instrumented.wraps instrumented.modules).1))
            returned in
        rw (instrument-ok, undone) (refl, refl, back, refl)
