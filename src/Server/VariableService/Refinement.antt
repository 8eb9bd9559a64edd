-- ===== src/Server/VariableService/Refinement.antt =====
-- The service of async_grpc/server/variable_service_impl.cpp against a map as a function: each key
-- has a value or none, and nothing else can be seen.
use Prim.Native.String.{String}
use text.Mathlib.Text.{◌==◌ as str_eq}
use async_sandbox.Prelude.{
  ℤ, ◌≡◌, refl, ap, ◌∙◌, fun_ext, not, Option, none, some, List, [], ◌∷◌, arith, if◌then◌else◌,
}
use async_sandbox.AsyncGrpc.Status.{not_found, ok_status}
use async_sandbox.AsyncGrpc.Unary.{Reply, finish, finish_with_error}
use async_sandbox.Server.VariableService.Map.{
  Storage, find, insert_or_assign, IsMap, is_some, find-insert, inserted-find, find-erase,
  erased-find, insert-IsMap, erase-IsMap,
}
use async_sandbox.Server.VariableService.{
  Request, write, read, del, Response, wrote, got, deleted, handle, handle_all,
}

abbrev pub View : Type 0
View = String → Option ℤ

abbrev pub missing : Reply ℤ
missing =
    finish_with_error
      (record { error_code = not_found; error_message = "Request key was not found in storage" })

abbrev pub found : Option ℤ → Reply ℤ
found none = missing
found (some v) = finish v ok_status

-- What a request does to a map, and its reply.
abbrev pub spec : View → Request → View × Response
spec m (write k v) =
    (λ j. if str_eq k j then some v else m j, wrote (finish (not (is_some (m k))) ok_status))
spec m (read k) = (m, got (found (m k)))
spec m (del k) = (λ j. if str_eq k j then none else m j, deleted (finish (is_some (m k)) ok_status))

abbrev pub spec_all : View → List Request → View × List Response
spec_all m [] = (m, [])
spec_all m (q ∷ qs) = ((spec_all (spec m q).0 qs).0, (spec m q).1 ∷ (spec_all (spec m q).0 qs).1)

inserted_is_new :
    (s : Storage) (k : String) (v : ℤ) → (insert_or_assign s k v).1 ≡ not (is_some (find s k))
inserted_is_new s k v = ground (arith, inserted-find s k v)

handle-view : (s : Storage) (q : Request) → IsMap s → find (handle s q).0 ≡ (spec (find s) q).0
unfolding handle
handle-view s (write k v) h = fun_ext λ j. find-insert s k j v
handle-view s (read k) h = ground arith
handle-view s (del k) h = fun_ext λ j. find-erase s k j h

handle-reply : (s : Storage) (q : Request) → (handle s q).1 ≡ (spec (find s) q).1
unfolding handle
handle-reply s (write k v) = ap (λ b. wrote (finish b ok_status)) (inserted_is_new s k v)
handle-reply s (read k) = ground arith
handle-reply s (del k) = ap (λ b. deleted (finish b ok_status)) (erased-find s k)

pub handle-IsMap : (s : Storage) (q : Request) → IsMap s → IsMap (handle s q).0
unfolding handle
handle-IsMap s (write k v) h = insert-IsMap s k v h
handle-IsMap s (read k) h = ground arith
handle-IsMap s (del k) h = erase-IsMap s k h

-- On a storage with no key twice, whatever the requests, in whatever order they take the lock,
-- the replies are those of the abstract map, the storage shows the abstract map in the end, and
-- no key is in it twice.
pub handle_all-refines :
    (s : Storage) (qs : List Request)
    → IsMap s
    → (find (handle_all s qs).0 ≡ (spec_all (find s) qs).0)
      × ((handle_all s qs).1 ≡ (spec_all (find s) qs).1)
      × IsMap (handle_all s qs).0
unfolding handle_all
handle_all-refines s [] h = (refl, refl, h)
handle_all-refines s (q ∷ qs) h =
    let (v, r, m) = handle_all-refines (handle s q).0 qs (handle-IsMap s q h) in
    (
      v ∙ ap (λ (g : View). (spec_all g qs).0) (handle-view s q h),
      cons_eq (handle-reply s q) (r ∙ ap (λ (g : View). (spec_all g qs).1) (handle-view s q h)),
      m,
    )
  where
    cons_eq :
        {a b : Response} {cs bs : List Response}
        → a ≡ b
        → cs ≡ bs
        → ◌≡◌ {A = List Response} (a ∷ cs) (b ∷ bs)
    cons_eq p e = cc
