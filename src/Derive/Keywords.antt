-- ===== src/Derive/Keywords.antt =====
-- dds_derive/src/lib.rs: the reserved words of the languages that the definitions are compiled to.
use cyclonedds_rs.Common.{codes, Text, List, [], ◌∷◌, Bool, ◌||◌, is_among}

abbrev pub idl_keywords : List Text
idl_keywords =
    codes "abstract"
    ∷ codes "any"
    ∷ codes "alias"
    ∷ codes "attribute"
    ∷ codes "bitfield"
    ∷ codes "bitmask"
    ∷ codes "bitset"
    ∷ codes "boolean"
    ∷ codes "case"
    ∷ codes "char"
    ∷ codes "component"
    ∷ codes "connector"
    ∷ codes "const"
    ∷ codes "consumes"
    ∷ codes "context"
    ∷ codes "custom"
    ∷ codes "default"
    ∷ codes "double"
    ∷ codes "exception"
    ∷ codes "emits"
    ∷ codes "enum"
    ∷ codes "eventtype"
    ∷ codes "factory"
    ∷ codes "false"
    ∷ codes "finder"
    ∷ codes "fixed"
    ∷ codes "float"
    ∷ codes "getraises"
    ∷ codes "home"
    ∷ codes "import"
    ∷ codes "in"
    ∷ codes "inout"
    ∷ codes "interface"
    ∷ codes "local"
    ∷ codes "long"
    ∷ codes "manages"
    ∷ codes "map"
    ∷ codes "mirrorport"
    ∷ codes "module"
    ∷ codes "multiple"
    ∷ codes "native"
    ∷ codes "object"
    ∷ codes "octet"
    ∷ codes "oneway"
    ∷ codes "out"
    ∷ codes "primarykey"
    ∷ codes "private"
    ∷ codes "port"
    ∷ codes "porttype"
    ∷ codes "provides"
    ∷ codes "public"
    ∷ codes "publishes"
    ∷ codes "raises"
    ∷ codes "readonly"
    ∷ codes "setraises"
    ∷ codes "sequence"
    ∷ codes "short"
    ∷ codes "string"
    ∷ codes "struct"
    ∷ codes "supports"
    ∷ codes "switch"
    ∷ codes "true"
    ∷ codes "truncatable"
    ∷ codes "typedef"
    ∷ codes "typeid"
    ∷ codes "typename"
    ∷ codes "typeprefix"
    ∷ codes "unsigned"
    ∷ codes "union"
    ∷ codes "uses"
    ∷ codes "valuebase"
    ∷ codes "valuetype"
    ∷ codes "void"
    ∷ codes "wchar"
    ∷ codes "wstring"
    ∷ codes "int8"
    ∷ codes "uint8"
    ∷ codes "int16"
    ∷ codes "int32"
    ∷ codes "int64"
    ∷ codes "uint16"
    ∷ codes "uint32"
    ∷ codes "uint64"
    ∷ []

abbrev pub c_cpp_keywords : List Text
c_cpp_keywords =
    codes "auto"
    ∷ codes "break"
    ∷ codes "continue"
    ∷ codes "do"
    ∷ codes "else"
    ∷ codes "extern"
    ∷ codes "for"
    ∷ codes "goto"
    ∷ codes "if"
    ∷ codes "inline"
    ∷ codes "int"
    ∷ codes "register"
    ∷ codes "restrict"
    ∷ codes "return"
    ∷ codes "signed"
    ∷ codes "sizeof"
    ∷ codes "static"
    ∷ codes "volatile"
    ∷ codes "while"
    ∷ codes "alignas"
    ∷ codes "alignof"
    ∷ codes "and"
    ∷ codes "and_eq"
    ∷ codes "asm"
    ∷ codes "atomic_cancel"
    ∷ codes "atomic_commit"
    ∷ codes "atomic_noexcept"
    ∷ codes "audit"
    ∷ (b'a' ∷ b'x' ∷ b'i' ∷ b'o' ∷ b'm' ∷ [])
    ∷ codes "bitand"
    ∷ codes "bitor"
    ∷ codes "bool"
    ∷ codes "catch"
    ∷ codes "char8_t"
    ∷ codes "char16_t"
    ∷ codes "char32_t"
    ∷ codes "class"
    ∷ codes "co_await"
    ∷ codes "co_return"
    ∷ codes "co_yield"
    ∷ codes "compl"
    ∷ codes "concept"
    ∷ codes "const_cast"
    ∷ codes "consteval"
    ∷ codes "constexpr"
    ∷ codes "constinit"
    ∷ codes "decltype"
    ∷ codes "delete"
    ∷ codes "dynamic_cast"
    ∷ codes "explicit"
    ∷ codes "export"
    ∷ codes "friend"
    ∷ codes "mutable"
    ∷ codes "namespace"
    ∷ codes "new"
    ∷ codes "noexcept"
    ∷ codes "not"
    ∷ codes "not_eq"
    ∷ codes "nullptr"
    ∷ codes "operator"
    ∷ codes "or"
    ∷ codes "or_eq"
    ∷ codes "protected"
    ∷ codes "reflexpr"
    ∷ codes "reinterpret_cast"
    ∷ codes "requires"
    ∷ codes "template"
    ∷ codes "this"
    ∷ codes "thread_local"
    ∷ codes "throw"
    ∷ codes "try"
    ∷ codes "using"
    ∷ codes "virtual"
    ∷ codes "wchar_t"
    ∷ codes "xor"
    ∷ codes "xor_eq"
    ∷ []

abbrev pub python_keywords : List Text
python_keywords =
    codes "as"
    ∷ codes "assert"
    ∷ codes "async"
    ∷ codes "await"
    ∷ codes "def"
    ∷ codes "del"
    ∷ codes "elif"
    ∷ codes "except"
    ∷ codes "finally"
    ∷ codes "from"
    ∷ codes "global"
    ∷ codes "is"
    ∷ codes "lambda"
    ∷ codes "nonlocal"
    ∷ codes "none"
    ∷ codes "pass"
    ∷ codes "raise"
    ∷ codes "with"
    ∷ codes "yield"
    ∷ []

unfoldable pub is_reserved_keyword : Text → Bool
is_reserved_keyword name =
    is_among name idl_keywords || is_among name c_cpp_keywords || is_among name python_keywords
