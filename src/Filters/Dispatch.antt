-- ===== src/Filters/Dispatch.antt =====
-- src/filters.c: the names of the filters.
use fanpico.Base.{◌≡◌, refl}
use fanpico.Base.Text.{strcasecmp_eq}
use fanpico.Types.{FilterType, filter_none}
use fanpico.Filters.{str2filter, filter2str}

-- A filter is read back from its name.
pub str2filter-filter2str : (f : FilterType) → str2filter (filter2str f) ≡ f
unfolding str2filter filter2str strcasecmp_eq
str2filter-filter2str filter_none = refl
str2filter-filter2str _ = refl
