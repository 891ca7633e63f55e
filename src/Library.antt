-- ===== src/Library.antt =====
-- pyuring/native/library.py. The two paths that are made of the module's own, what lies in the file
-- system, and what `ctypes.CDLL` loads, are arguments.
use Prim.Native.String.{◌++◌}
use pyuring.Errno
use pyuring.Prelude.{
  String, Bool, true, false, ◌≡◌, ◌⊎◌, inl, inr, pos, some, if◌then◌else◌, Bool-cases, arith,
}
use pyuring.Errors.{Result, Exception, ok, err, uring_error, make_error, nowhere, os_error}

-- The files beside the package, and the questions about them.
pub record Places : Type 0 where
  pub installed_path : String
  pub build_path : String
  pub exists : String → Bool
  pub loads : String → Bool

abbrev pub library_name : String
library_name = "liburingwrap.so"

abbrev pub tried : Places → String
tried p =
    "Tried:\n  - "
    ++ (p.installed_path
        ++ ("\n  - "
            ++ (p.build_path
                ++ "\n  - system library (ctypes CDLL)\nEnsure the package is built/installed so liburingwrap.so is available.")))

abbrev pub not_found : Places → Exception
not_found p =
    uring_error
      (make_error (pos Errno.enoent) "_find_library" (record nowhere { detail = some (tried p) }))

-- `_find_library`
unfoldable pub find_library : Places → Result String
find_library p =
    if p.exists p.installed_path
    then ok p.installed_path
    else if p.exists p.build_path
    then ok p.build_path
    else if p.loads library_name
    then ok library_name
    else err (not_found p)

-- `ctypes.CDLL`, which raises an `OSError` without an errno.
abbrev pub cdll : Places → String → Result String
cdll p path = if p.loads path then ok path else err (os_error 0)

abbrev pub load_found : Places → (String → String) → Result String → Result String
load_found p abspath (err e) = err e
load_found p abspath (ok path) = if p.exists path then cdll p (abspath path) else cdll p path

-- `_get_lib`: the path that is loaded.
unfoldable pub get_lib : Places → (String → String) → Result String
get_lib p abspath = load_found p abspath (find_library p)

-- What is found is there: a file at one of the two paths, or a library that loads by its name. When
-- there is none of the three, and only then, the search raises `ENOENT` with both paths in its detail.
find_library_lem :
    (p : Places)
    → ((path : String) × (find_library p ≡ ok path)
        × ((p.exists path ≡ true) ⊎ (p.loads path ≡ true)))
      ⊎ ((find_library p ≡ err (not_found p))
          × (p.exists p.installed_path ≡ false)
          × (p.exists p.build_path ≡ false)
          × (p.loads library_name ≡ false))
unfolding find_library
find_library_lem p = elim (Bool-cases (p.exists p.installed_path)) [
  | inl a ↦ inl (p.installed_path, ground arith, inl a)
  | inr a ↦ elim (Bool-cases (p.exists p.build_path)) [
    | inl b ↦ inl (p.build_path, ground arith, inl b)
    | inr b ↦ elim (Bool-cases (p.loads library_name)) [
      | inl c ↦ inl (library_name, ground arith, inr c)
      | inr c ↦ inr (ground arith, a, b, c)
    ]
  ]
]
