-- ===== src/Lib.antt =====
-- Verification of opentelemetry-openstack: instrumentation packages that wrap functions of
-- OpenStack's libraries, so that work is traced with OpenTelemetry.
--
-- A package has an instrumentor, which replaces functions of the library it is for by wrappers, and
-- the wrappers: each opens a span around the wrapped call and carries the trace's context to where
-- the work goes on (another process by a message, another thread by an attribute).
--
-- The packages are under instrumentation/opentelemetry-instrumentation-<name>/src/opentelemetry/
-- instrumentation/<package>/. The files correspond to them so:
-- - Prelude: names of the standard libraries, tests on numbers and strings, lemmas on lists.
-- - Py.Value: dynamic values, their truth, attributes and mappings (`getattr(x, n, None)` is
--   `getattr x n`, `d.get(k)` is `get d k`, `x or y` is `or x y`); Py.Exec: code that changes a state
--   and may raise (`Exec`), with `try` and `finally`; Py.Dict: dictionaries whose keys have an equality.
-- - Otel: the interface of the OpenTelemetry API. Its code is not in the repository, so `Telemetry` is
--   a record of operations over a state, and Otel.Laws has what its documentation promises:
--   `KeepsContext` of the current context, `Propagates` of a propagator, `Exports` of the spans
--   that were begun and ended. Otel.Memory is one instance, on which every law is proved.
-- - Messaging: oslo_messaging/decorators.py. Names: `_arg`, the broker's name, the RPC method;
--   Attributes: the `_set_*` helpers, as lists of the calls they make on the span; Producer:
--   `inject_trace`; Consumer: `rpc_server_wrapper` and `notification_server_wrapper`. Scope,
--   Delivery, Continuity, Payload and Broker hold the proofs.
-- - Taskflow: taskflow/listener.py and taskflow/__init__.py. Notification: TaskFlow's states and the
--   three tables; Listener: `_TraceListener` (one notification is one step, the fields are the
--   record `TraceListener`, and `contexts` is the attribute that the listener sets on atoms);
--   Bodies: `_traced_atom_body`; Patching: the patched modules and `TaskflowInstrumentor`; Threads:
--   the receivers in several threads at once, where the block under the lock is one step and each
--   access outside of it another (`Thread`, `notify`, `go_on`), with every interleaving as a `Run`.
-- - Service: oslo_service/_propagation.py (Propagation: the wrappers; Instrumentor: the entry points,
--   `install`, `uninstall` and `OsloServiceInstrumentor`) and oslo_service/__init__.py (Backend:
--   `_select_backend` and the hook). A callable is what its call does in the thread that makes it.
-- - Keystone: keystonemiddleware/__init__.py. Environ: what is read from the WSGI environment; Token:
--   what is read from the authenticated request; Middleware: the two wrappers; Headers: the
--   getter's `get` against its `keys`. Scope, Identity, Continuity and Refused hold the proofs.
-- - Session: keystoneauth1/__init__.py. Request: `_request_wrapper` and its helpers; `urlparse`,
--   `dict` of any value and the comparison of a `float` are the parameter `Parsing`.
-- - Http: a session's request that arrives at the middleware, with the network and the WSGI server as
--   a parameter (`Serves`); Dispatch: its application sends an RPC, and the handler gets it.
-- - Proxy: openstacksdk/__init__.py. Request: `_request_wrapper` and `_global_request_id`; Response:
--   `_http_method`, `_http_url` and `_record_response`; Same: these against Session's; Nested: a
--   proxy's request over a session's, both wrapped.
-- - Log: oslo_log/handler.py, _factory.py and __init__.py. Attributes:
--   `OsloLogHandler._get_attributes` and its helpers; Factory: `record_factory` and the service name
--   that its closure keeps; Level: the settings; Instrumentor: `OsloLogInstrumentor` over the root logger's handlers, which are
--   known by their identity, the record factory in force and the functions of oslo.log. Exported,
--   Types, Correlated, Cached, Handlers and Attached hold the proofs; Dispatch composes the record
--   factory with the consumer in Messaging.
-- - Bootstrap: auto_instrumentation/_oslo_service_eventlet.py, auto_instrumentation/sitecustomize.py
--   and oslo_service/distro.py. Entries: `split` and `join` by `os.pathsep`; Process: the environment,
--   `sys.modules` and the fork handlers, with eventlet and the imports as the parameter `Platform`;
--   Forkhook: `register_forkhook`; Sdk: `unpatch_sdk`; Patch: `_strip_path` and `try_patch`; Distro:
--   sitecustomize and the distribution. Patched, Pinned and Rebound hold the proofs; Pinned
--   composes the patch with the choice of the backend in Service.
-- - Session.Instrumentor, Proxy.Instrumentor and Keystone.Instrumentor: the instrumentors of these
--   packages; that of keystonemiddleware also over the attributes of the class it patches.
-- - Py.Wrapt: `wrapt.wrap_function_wrapper` and `unwrap`, which replace a library's function, as an
--   interface with its documented behaviour; Py.Wrapt.Stacks is an instance. All the instrumentors
--   but that of TaskFlow use it. Py.Builtins: `str.upper`, `str.lower`, `str.strip`, `int`, `iter` and
--   `repr`.
-- A wrapped function is an argument of its wrapper, any code on the same state; it may raise and may
-- change the current context. An object's `repr` and the text of a state are parameters too. Loops
-- are structural recursion. Only `go_on_for` in Taskflow.Threads.Alone takes a number of steps, of which
-- `steps_left` is enough.
--
-- Not modelled: the logging of the source's own warnings; the tracer's construction; wrapt, and
-- TaskFlow's registration of listeners. In Threads the API's state is one for all threads, so that
-- the current context of each is not told apart there. Also left out are the
-- version strings and the examples, and what `logging` does with a record that a handler has.
pub mod Prelude
pub mod Py
pub mod Otel
pub mod Messaging
pub mod Taskflow
pub mod Service
pub mod Keystone
pub mod Session
pub mod Http
pub mod Proxy
pub mod Log
pub mod Bootstrap
