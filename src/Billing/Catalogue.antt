-- ===== src/Billing/Catalogue.antt =====
-- app/billing/plans.py: the catalogue of plans. Prices are in hundredths; a yearly price is
-- twelve months less the annual discount of 15 %.
use multi_agent_ai_system.Prelude.{◌*◌, String, List, [], ◌∷◌, ◌++◌}
use multi_agent_ai_system.Prelude.Int.{ℤ, pos, negsuc}

abbrev pub starter_features : List String
starter_features =
    "ai_customer_service" ∷ "faq" ∷ "knowledge_base" ∷ "products" ∷ "product_variants" ∷ "stock"
    ∷ "customer_database" ∷ "conversation_history" ∷ "orders" ∷ "cart" ∷ "human_handoff"
    ∷ "admin_inbox" ∷ "basic_analytics" ∷ "basic_automation" ∷ "whatsapp_cloud_api" ∷ []

abbrev pub pro_features : List String
pro_features =
    starter_features
    ++ ("ai_memory" ∷ "advanced_knowledge" ∷ "ai_sales" ∷ "ai_support" ∷ "ai_followup"
        ∷ "lead_qualification" ∷ "conversation_analysis" ∷ "workflow_builder"
        ∷ "scheduled_automation" ∷ "abandoned_cart" ∷ "reminders" ∷ "broadcast" ∷ "segmentation"
        ∷ "campaigns" ∷ "advanced_analytics" ∷ "conversion_analytics" ∷ "customer_segmentation"
        ∷ "ai_recommendations" ∷ "api_access" ∷ "webhooks" ∷ "google_sheets" ∷ "google_calendar"
        ∷ "midtrans" ∷ "midtrans_payment" ∷ "payments" ∷ "rest_api" ∷ "make_connector"
        ∷ "n8n_connector" ∷ "zapier_connector" ∷ [])

abbrev pub business_features : List String
business_features =
    pro_features
    ++ ("owner_ai" ∷ "ai_client_manager" ∷ "ai_analyst" ∷ "ai_data_manager" ∷ "custom_ai_agent"
        ∷ "advanced_bi" ∷ "forecasting" ∷ "anomaly_detection" ∷ "trend_detection"
        ∷ "business_health_score" ∷ "daily_brief" ∷ "weekly_review" ∷ "instagram"
        ∷ "facebook_messenger" ∷ "web_chat" ∷ "advanced_crm" ∷ "advanced_api" ∷ "custom_webhooks"
        ∷ "advanced_workflow" ∷ "custom_roles" ∷ "granular_permissions" ∷ "2fa" ∷ "ip_restriction"
        ∷ "audit_log" ∷ "advanced_reports" ∷ "customer_360" ∷ "priority_support" ∷ [])

abbrev pub trial_features : List String
trial_features =
    starter_features
    ++ ("broadcast" ∷ "api_access" ∷ "webhooks" ∷ "google_sheets" ∷ "google_calendar" ∷ "midtrans"
        ∷ "midtrans_payment" ∷ "payments" ∷ "rest_api" ∷ "whatsapp_cloud_api" ∷ [])

pub record PlanDefinition : Type 0 where
  pub code : String
  pub name : String
  pub description : String
  pub price_monthly : ℤ
  pub price_yearly : ℤ
  pub limits : List (String × ℤ)
  pub features : List String

abbrev pub starter_plan : PlanDefinition
starter_plan = record {
  code = "starter";
  name = "Starter";
  description = "Ideal for small businesses getting started with AI automation";
  price_monthly = pos 29900000;
  price_yearly = pos 304980000;
  limits =
      ("whatsapp_connections", pos 1)
      ∷ ("admins", pos 3)
      ∷ ("active_customers", pos 1000)
      ∷ ("ai_credits", pos 3000)
      ∷ ("automation_runs", pos 2000)
      ∷ ("outbound_messages", pos 5000)
      ∷ ("storage_bytes", pos (5 * 1024 * 1024 * 1024))
      ∷ [];
  features = starter_features;
}

abbrev pub pro_plan : PlanDefinition
pro_plan = record {
  code = "pro";
  name = "Pro";
  description = "Growing businesses needing advanced sales & marketing workflows";
  price_monthly = pos 79900000;
  price_yearly = pos 814980000;
  limits =
      ("whatsapp_connections", pos 2)
      ∷ ("admins", pos 10)
      ∷ ("active_customers", pos 5000)
      ∷ ("ai_credits", pos 15000)
      ∷ ("automation_runs", pos 10000)
      ∷ ("outbound_messages", pos 25000)
      ∷ ("storage_bytes", pos (25 * 1024 * 1024 * 1024))
      ∷ [];
  features = pro_features;
}

abbrev pub business_plan : PlanDefinition
business_plan = record {
  code = "business";
  name = "Business";
  description = "Full-featured AI Business OS with Owner AI intelligence";
  price_monthly = pos 199900000;
  price_yearly = pos 2038980000;
  limits =
      ("whatsapp_connections", pos 5)
      ∷ ("admins", pos 25)
      ∷ ("active_customers", pos 20000)
      ∷ ("ai_credits", pos 50000)
      ∷ ("automation_runs", pos 50000)
      ∷ ("outbound_messages", pos 50000)
      ∷ ("storage_bytes", pos (100 * 1024 * 1024 * 1024))
      ∷ [];
  features = business_features;
}

abbrev pub enterprise_plan : PlanDefinition
enterprise_plan = record {
  code = "enterprise";
  name = "Enterprise";
  description = "Custom scale and dedicated resources for large organizations";
  price_monthly = pos 0;
  price_yearly = pos 0;
  limits =
      ("whatsapp_connections", negsuc 0)
      ∷ ("admins", negsuc 0)
      ∷ ("active_customers", negsuc 0)
      ∷ ("ai_credits", negsuc 0)
      ∷ ("automation_runs", negsuc 0)
      ∷ ("outbound_messages", negsuc 0)
      ∷ ("storage_bytes", negsuc 0)
      ∷ [];
  features = business_features;
}

abbrev pub plan_definitions : List PlanDefinition
plan_definitions = starter_plan ∷ pro_plan ∷ business_plan ∷ enterprise_plan ∷ []

abbrev pub trial_limits : List (String × ℤ)
trial_limits =
    ("whatsapp_connections", pos 1)
    ∷ ("admins", pos 3)
    ∷ ("active_customers", pos 500)
    ∷ ("ai_credits", pos 1000)
    ∷ ("automation_runs", pos 500)
    ∷ ("outbound_messages", pos 1000)
    ∷ ("storage_bytes", pos (1 * 1024 * 1024 * 1024))
    ∷ []
