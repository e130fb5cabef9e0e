-- ===== src/Tests/Services.antt =====
-- Examples of the handlers of services.
use aws_light.Prelude.{◌≡◌, ◌↔◌, refl, [], ◌∷◌, inl, inr}
use aws_light.Prelude.Outcome.{returned}
use aws_light.Dict
use aws_light.Store.Laws.{get-put_cases}
use aws_light.Models.{ServiceState}
use aws_light.Models.Status.{ResourceStatus}
use aws_light.Api.Services as Handlers
use aws_light.Api.Services.Deletion.{Doomed, delete_service-Doomed, Keyed, update_service-Keyed}
use aws_light.Tests.Samples.{services, memory-IsStore, state_of, spec_of}
use aws_light.Tests.Orchestration.{env, world, web, world-RoutesMirror}

abbrev marked : services.State
marked = ("web", record web { status = ResourceStatus.deleting }) ∷ []

marks : Handlers.delete_service services world.services "web" ≡ returned marked
unfolding Handlers.delete_service Handlers.delete_found Dict.get Dict.put
marks = refl

delete_service-Doomed_example : Doomed env [] "web" (record world { services = marked })
delete_service-Doomed_example =
    delete_service-Doomed env (memory-IsStore ServiceState) [] "web" world marked world-RoutesMirror
      marks

abbrev before : services.State
before = Dict.put [] "web" (state_of "web")

abbrev renamed : ServiceState
renamed = record (state_of "web") { spec = spec_of "api"; status = ResourceStatus.updating }

before-Keyed : Keyed services before
unfolding Dict.get
before-Keyed = record {
  keyed = λ name state found.
      elim (get-put_cases services (memory-IsStore ServiceState) [] "web" name (state_of "web")
        state found) [ inl (same, is) ↦ rw (← is) same | inr (e, nothing) ↦ cc ];
}

renames :
    Handlers.update_service services before "web" (spec_of "api")
    ≡ returned (("web", renamed) ∷ [], renamed)
unfolding Handlers.update_service Handlers.update_found Dict.get Dict.put
renames = refl

update_service-Keyed_example :
    Keyed services (("web", renamed) ∷ []) ↔ ((spec_of "api").name ≡ "web")
update_service-Keyed_example =
    update_service-Keyed services (memory-IsStore ServiceState) before (("web", renamed) ∷ []) "web"
      (spec_of "api") renamed renames before-Keyed
