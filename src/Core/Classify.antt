-- ===== src/Core/Classify.antt =====
-- internal/cmek/classify.go: the class of a call's result.
use cmek.Base.{Option, none, some, if◌then◌else◌}
use cmek.Kms.Errors.{Code, GoErr, Sentinel, is}
use cmek.Kms.Frame.{code_from_text}
use cmek.Core.Types.{Class}

-- The switch on a code that was found.
unfoldable pub class_of_code : Code → Class
class_of_code Code.access_denied = Class.deny
class_of_code Code.key_disabled = Class.deny
class_of_code Code.timeout = Class.transient
class_of_code Code.unavailable = Class.transient

abbrev class_of : Option Code → Class
class_of none = Class.transient
class_of (some c) = class_of_code c

unfoldable pub classify_error : GoErr → Class
unfolding class_of_code
classify_error e =
    if is e.chain Sentinel.poison
    then Class.poison
    else elim e.typed [ some k ↦ class_of_code k.code | none ↦ class_of (code_from_text e.text) ]

unfoldable pub classify : Option GoErr → Class
unfolding classify_error
classify none = Class.ok
classify (some e) = classify_error e
