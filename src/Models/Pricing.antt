-- ===== src/Models/Pricing.antt =====
-- frontend/src/modelPricingDisplay.ts: the rows of cache prices, by the owner of a model.
use revlm.Base.{
  Bool, true, false, Option, List, [], ◌∷◌, if◌then◌else◌, or_else, Text, codes, text_eq, trim,
}

pub data ModelOwner : Type 0 where
  openai : ModelOwner
  anthropic : ModelOwner

unfoldable pub model_owner : Option Text → ModelOwner
model_owner raw = if text_eq (trim (or_else raw [])) (codes "anthropic") then anthropic else openai

abbrev is_anthropic : ModelOwner → Bool
is_anthropic openai = false
is_anthropic anthropic = true

unfoldable pub is_anthropic_owner : Option Text → Bool
unfolding model_owner
is_anthropic_owner raw = is_anthropic (model_owner raw)

pub record Prices : Type 0 where
  pub cache_read_input_usd_per_1m : Text
  pub cache_creation_input_usd_per_1m : Text
  pub cache_creation_1h_input_usd_per_1m : Text

pub record PriceRow : Type 0 where
  pub key : Text
  pub label : Text
  pub short_label : Text
  pub value : Text

unfoldable provider_cache_price_rows : Option Text → Prices → List PriceRow
unfolding is_anthropic_owner
provider_cache_price_rows owner prices =
    if is_anthropic_owner owner
    then record {
      key = codes "cache_read_input_usd_per_1m";
      label = codes "缓存读取";
      short_label = codes "Cache Read";
      value = prices.cache_read_input_usd_per_1m;
    }
      ∷ record {
        key = codes "cache_creation_input_usd_per_1m";
        label = codes "缓存创建·5m";
        short_label = codes "Cache 5m";
        value = prices.cache_creation_input_usd_per_1m;
      }
      ∷ record {
        key = codes "cache_creation_1h_input_usd_per_1m";
        label = codes "缓存创建·1h";
        short_label = codes "Cache 1h";
        value = prices.cache_creation_1h_input_usd_per_1m;
      }
      ∷ []
    else record {
      key = codes "cache_read_input_usd_per_1m";
      label = codes "缓存输入";
      short_label = codes "Cache In";
      value = prices.cache_read_input_usd_per_1m;
    }
      ∷ []
