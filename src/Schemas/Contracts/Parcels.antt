-- ===== src/Schemas/Contracts/Parcels.antt =====
-- The schemas of the parcels and their geometry, with the types that the client gives to the same values.
use development_plan.Base.{refl, List, [], ◌∷◌, All, string_eq}
use development_plan.Schemas.Types.{Shape}
use development_plan.Schemas.Generated.Parcels as Generated
use development_plan.Schemas.Generated.Geometry
use development_plan.Schemas.Interfaces.Registry
use development_plan.Schemas.Infer.{
  is_optional, infer, infer_entries, lacks_key, is_regular, are_regular, is_unlimited,
  are_unlimited,
}
use development_plan.Schemas.Agreement.{Contract, Agrees, IsUnlimited}

abbrev pub parcel_contracts : List Contract
parcel_contracts =
    record {
      operation = "listParcels";
      schema = Generated.list_parcels_response;
      shape = Shape.array Registry.parcel;
    }
    ∷ record {
      operation = "createParcel";
      schema = Generated.create_parcel_body;
      shape = Registry.create_parcel_request;
    }
    ∷ record {
      operation = "createParcel";
      schema = Generated.create_parcel_response;
      shape = Registry.parcel;
    }
    ∷ record {
      operation = "updateParcel";
      schema = Generated.update_parcel_body;
      shape = Registry.update_parcel_request;
    }
    ∷ record {
      operation = "updateParcel";
      schema = Generated.update_parcel_response;
      shape = Registry.parcel;
    }
    ∷ record {
      operation = "getParcel";
      schema = Generated.get_parcel_response;
      shape = Registry.parcel;
    }
    ∷ record {
      operation = "archiveParcel";
      schema = Generated.archive_parcel_response;
      shape = Registry.parcel;
    }
    ∷ record {
      operation = "setParcelGeometryReference";
      schema = Geometry.set_parcel_geometry_reference_body;
      shape = Registry.set_geometry_reference_request;
    }
    ∷ record {
      operation = "setParcelGeometryReference";
      schema = Geometry.set_parcel_geometry_reference_response;
      shape = Registry.parcel;
    }
    ∷ record {
      operation = "submitParcelGeometry";
      schema = Geometry.submit_parcel_geometry_body;
      shape = Registry.submit_geometry_request;
    }
    ∷ record {
      operation = "submitParcelGeometry";
      schema = Geometry.submit_parcel_geometry_response;
      shape = Registry.geometry_response;
    }
    ∷ record {
      operation = "getActiveParcelGeometry";
      schema = Geometry.get_active_parcel_geometry_response;
      shape = Registry.geometry_response;
    }
    ∷ []

pub parcel_contracts-Agree : All Agrees parcel_contracts
unfolding infer infer_entries is_optional is_regular are_regular lacks_key string_eq
parcel_contracts-Agree = (
  (refl, refl, refl),
  (
    (refl, refl, refl),
    (
      (refl, refl, refl),
      (
        (refl, refl, refl),
        (
          (refl, refl, refl),
          (
            (refl, refl, refl),
            (
              (refl, refl, refl),
              (
                (refl, refl, refl),
                (
                  (refl, refl, refl),
                  ((refl, refl, refl), ((refl, refl, refl), ((refl, refl, refl), tt))),
                ),
              ),
            ),
          ),
        ),
      ),
    ),
  ),
)

pub parcel_contracts-AreUnlimited : All IsUnlimited parcel_contracts
unfolding is_unlimited are_unlimited
parcel_contracts-AreUnlimited = (
  refl,
  (refl, (refl, (refl, (refl, (refl, (refl, (refl, (refl, (refl, (refl, (refl, tt))))))))))),
)
