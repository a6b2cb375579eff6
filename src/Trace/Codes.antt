-- ===== src/Trace/Codes.antt =====
-- The names of the status codes from 0 on, as the plugins for HTTP and gRPC give them.
use opencensus_go.Prelude.{Bytes, List, [], ◌∷◌}

abbrev pub status_names : List Bytes
status_names =
    (0x4f ∷ 0x4b ∷ [])
    ∷ (0x43 ∷ 0x41 ∷ 0x4e ∷ 0x43 ∷ 0x45 ∷ 0x4c ∷ 0x4c ∷ 0x45 ∷ 0x44 ∷ [])
    ∷ (0x55 ∷ 0x4e ∷ 0x4b ∷ 0x4e ∷ 0x4f ∷ 0x57 ∷ 0x4e ∷ [])
    ∷ (0x49 ∷ 0x4e ∷ 0x56 ∷ 0x41 ∷ 0x4c ∷ 0x49 ∷ 0x44 ∷ 0x5f ∷ 0x41 ∷ 0x52 ∷ 0x47 ∷ 0x55 ∷ 0x4d
        ∷ 0x45 ∷ 0x4e ∷ 0x54 ∷ [])
    ∷ (0x44 ∷ 0x45 ∷ 0x41 ∷ 0x44 ∷ 0x4c ∷ 0x49 ∷ 0x4e ∷ 0x45 ∷ 0x5f ∷ 0x45 ∷ 0x58 ∷ 0x43 ∷ 0x45
        ∷ 0x45 ∷ 0x44 ∷ 0x45 ∷ 0x44 ∷ [])
    ∷ (0x4e ∷ 0x4f ∷ 0x54 ∷ 0x5f ∷ 0x46 ∷ 0x4f ∷ 0x55 ∷ 0x4e ∷ 0x44 ∷ [])
    ∷ (0x41 ∷ 0x4c ∷ 0x52 ∷ 0x45 ∷ 0x41 ∷ 0x44 ∷ 0x59 ∷ 0x5f ∷ 0x45 ∷ 0x58 ∷ 0x49 ∷ 0x53 ∷ 0x54
        ∷ 0x53 ∷ [])
    ∷ (0x50 ∷ 0x45 ∷ 0x52 ∷ 0x4d ∷ 0x49 ∷ 0x53 ∷ 0x53 ∷ 0x49 ∷ 0x4f ∷ 0x4e ∷ 0x5f ∷ 0x44 ∷ 0x45
        ∷ 0x4e ∷ 0x49 ∷ 0x45 ∷ 0x44 ∷ [])
    ∷ (0x52 ∷ 0x45 ∷ 0x53 ∷ 0x4f ∷ 0x55 ∷ 0x52 ∷ 0x43 ∷ 0x45 ∷ 0x5f ∷ 0x45 ∷ 0x58 ∷ 0x48 ∷ 0x41
        ∷ 0x55 ∷ 0x53 ∷ 0x54 ∷ 0x45 ∷ 0x44 ∷ [])
    ∷ (0x46 ∷ 0x41 ∷ 0x49 ∷ 0x4c ∷ 0x45 ∷ 0x44 ∷ 0x5f ∷ 0x50 ∷ 0x52 ∷ 0x45 ∷ 0x43 ∷ 0x4f ∷ 0x4e
        ∷ 0x44 ∷ 0x49 ∷ 0x54 ∷ 0x49 ∷ 0x4f ∷ 0x4e ∷ [])
    ∷ (0x41 ∷ 0x42 ∷ 0x4f ∷ 0x52 ∷ 0x54 ∷ 0x45 ∷ 0x44 ∷ [])
    ∷ (0x4f ∷ 0x55 ∷ 0x54 ∷ 0x5f ∷ 0x4f ∷ 0x46 ∷ 0x5f ∷ 0x52 ∷ 0x41 ∷ 0x4e ∷ 0x47 ∷ 0x45 ∷ [])
    ∷ (0x55 ∷ 0x4e ∷ 0x49 ∷ 0x4d ∷ 0x50 ∷ 0x4c ∷ 0x45 ∷ 0x4d ∷ 0x45 ∷ 0x4e ∷ 0x54 ∷ 0x45 ∷ 0x44
        ∷ [])
    ∷ (0x49 ∷ 0x4e ∷ 0x54 ∷ 0x45 ∷ 0x52 ∷ 0x4e ∷ 0x41 ∷ 0x4c ∷ [])
    ∷ (0x55 ∷ 0x4e ∷ 0x41 ∷ 0x56 ∷ 0x41 ∷ 0x49 ∷ 0x4c ∷ 0x41 ∷ 0x42 ∷ 0x4c ∷ 0x45 ∷ [])
    ∷ (0x44 ∷ 0x41 ∷ 0x54 ∷ 0x41 ∷ 0x5f ∷ 0x4c ∷ 0x4f ∷ 0x53 ∷ 0x53 ∷ [])
    ∷ (0x55 ∷ 0x4e ∷ 0x41 ∷ 0x55 ∷ 0x54 ∷ 0x48 ∷ 0x45 ∷ 0x4e ∷ 0x54 ∷ 0x49 ∷ 0x43 ∷ 0x41 ∷ 0x54
        ∷ 0x45 ∷ 0x44 ∷ [])
    ∷ []
