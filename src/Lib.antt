-- ===== src/Lib.antt =====
-- Admiralty schedules pods of a source cluster in target clusters. A mutating webhook makes a
-- "proxy pod" of an elected pod; the proxy scheduler chooses a target cluster for it by creating a
-- "pod chaperon" in each candidate cluster; the chaperon controller of a target cluster makes the
-- delegate pod of its chaperon; and the feedback controller brings the delegate's status back to
-- the proxy pod. Children carry labels and annotations that lead back to their parents.
--
-- Paths are from the repository's root.
--   Base.antt, Base/*    tests on numbers, lists, Go's maps as association lists, and calls of the
--                        Kubernetes API. An action `Exec C A` takes the calls made so far, newest
--                        first, to a result and the calls with its own in front; what the API
--                        server answers is a parameter and may depend on the calls so far.
--                        `Makes P m` says that every call of `m` satisfies `P`, and `Leads` gives
--                        what holds after an action for what held before it. `Keeps` says that an
--                        action drops no call.
--   Name.antt            pkg/name/name.go: `FromParts`, over bytes. SHA-256 is a parameter.
--   Common.antt          pkg/common: keys, `SplitLabelsOrAnnotations`, and the merge of annotations
--                        that the feedback and the chaperon controller both have in their handlers.
--   Kube.antt            the Kubernetes objects, by the fields that the program reads or writes;
--                        the rest of an object is one text.
--   Controller.antt      pkg/controller: keys, references to a remote parent, finalizers, event
--                        handlers; Controller/Queue: the worker's loop, over the list of what the
--                        queue answers until it shuts down; what `Handle` answers may differ
--                        from one time that a key is handled to the next.
--   Agent.antt           pkg/config/agent/agent.go: the targets of the configuration and the known
--                        finalizers; the labels of pkg/model/virtualnode.
--   Feedback.antt        pkg/controllers/feedback/controller.go: `Handle`, which releases proxy
--                        pods, deletes candidates and copies status and annotations.
--   Chaperon.antt        pkg/controllers/chaperon/controller.go: `Handle`.
--   DelegatePod.antt     pkg/model: `MakeDelegatePod`, `ChangeLabels`, `removeServiceAccount`, and the
--                        functions on proxy pods. YAML and regular expressions are parameters.
--   Plugins.antt         pkg/scheduler_plugins: statuses, and polling. Polling is a parameter with the
--                        law that it is some number of rounds of its condition.
--   Plugins/Proxy.antt   the proxy plugin: the memory of failed nodes, and each method as an action.
--   Plugins/Candidate.antt  the candidate plugin.
--   Webhook.antt         pkg/webhooks/proxypod: `Default`, from a pod to a pod or an error.
--   Cleanup.antt         pkg/controllers/cleanup/controller.go: `Handle`.
--   Resources.antt       pkg/controllers/resources/downstream.go: `Handle`. Quantities are of any type with
--                        an addition.
--   Upstream.antt        pkg/controllers/resources/upstream.go: `Handle` and its helpers.
--   Follow.antt          pkg/controllers/follow: what the four controllers have in common, for any kind of
--                        object; an object's plan is an argument. Follow/Keys: what pods refer to.
--                        Follow/World and Steps: two clusters, in which the calls of a pass, users
--                        and other programs act.
--   Secret.antt, ConfigMap.antt  pkg/controllers/follow/secret.go and cm.go: `Handle` and the indices
--                        of pods, as instances of Follow.
--   Ingress.antt, Service.antt  pkg/controllers/follow/ingress and service: the same for ingresses and
--                        services, with `shouldFollow`, `shouldUpdate` and the rerouting of selectors.
--   Source.antt          pkg/controllers/source/controller.go: `Handle`, over identities.
--   Restarter.antt       pkg/controllers/target/controller.go: `Handle`, from memory to memory.
--   Removal.antt         cmd/remove-finalizers/main.go: `main`, once for the five kinds of objects.
--                        Removal/Frees: on what the controllers and the webhook have held.
--   Logs.antt            pkg/vk/http/provider.go: the logs and commands of proxy pods, up to the streams.
--   */Events.antt        what the constructors of the controllers register: from an event of an informer
--                        to the keys that it puts on the queue. Controller/Events has what they share.
--   VirtualNode.antt     pkg/vk/node: the node of a target, and its provider. VirtualNode/Admission: the
--                        proxy pods of the webhook on it.
--   Certificate.antt     pkg/vk/csr/csr.go: the request for a certificate, its approval, and the wait.
--   HttpServer.antt      pkg/vk/http/http.go: the TLS configuration and the steps of `SetupHTTPServer`.
--   Manager.antt         cmd/agent/main.go: which controllers run for which targets, with which clusters and
--                        providers, and what becomes of the servers.
--   */Examples.antt      concrete runs.
--
-- A Go map that was read is nil where it is empty; an assignment to one that the code does not make
-- first is the error `nil_map`.
--
-- Every loop is over a list, or is polling, which is a parameter; only `trim_dashes` of Name runs on
-- fuel, the length of its text, which is enough since each round drops a byte. The listers, the
-- clientsets, the clock, hashing, YAML, regular expressions and the comparisons of the libraries are
-- parameters, arguments of the definitions or fields of a `Reconciler` record. So are the keys and the
-- controllers of objects, with the documented laws as hypotheses (Controller/Events), toleration
-- (VirtualNode/Admission), and the text of a time, which is read back in whole seconds
-- (Chaperon/Recreate). Not modelled: the generated clients, informers and listers; threads, flags,
-- logging and leader election, which are processes around the code; the routes of the virtual
-- kubelet's server and the encodings of its keys and requests, which are libraries; and the
-- scheduler's framework.
pub mod Base
pub mod Name
pub mod Common
pub mod Kube
pub mod Controller
pub mod Agent
pub mod Feedback
pub mod Chaperon
pub mod DelegatePod
pub mod Plugins
pub mod Webhook
pub mod Cleanup
pub mod Resources
pub mod Upstream
pub mod Follow
pub mod Secret
pub mod ConfigMap
pub mod Ingress
pub mod Service
pub mod Source
pub mod Restarter
pub mod Removal
pub mod Logs
pub mod VirtualNode
pub mod Manager
pub mod Certificate
pub mod HttpServer
